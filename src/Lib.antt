-- ===== src/Lib.antt =====
-- Verification of xdg-app. The main part is the filtering D-Bus proxy that stands between
-- a sandboxed application and the message bus, dbus-proxy/xdg-app-proxy.c. Module Proxy and its
-- children follow that file.
--
-- The parts, and how they meet. A client of the proxy has two sides, each with a socket, a queue of
-- buffers to write and a table of replies it waits for. Proxy/Input (buffer_read, side_in_cb) reads
-- messages from one side. Until the client is authenticated the bytes are passed on as they are;
-- Proxy/Auth (find_auth_end) looks for the end of that. After it each message of the client goes to
-- got_buffer_from_client (Proxy/FromClient) and each of the bus to got_buffer_from_bus
-- (Proxy/FromBus). Both read the header (Proxy/Header: parse_header, over Proxy/Wire: read_uint32 to
-- get_string), attach descriptors (Proxy/Fds: update_socket_messages), and decide by the policy of
-- names and unique ids (Proxy/Policy: the tables of the proxy; Proxy/Names: those of the client).
-- The client's messages are judged by get_dbus_method_handler (Proxy/Handler), and what is refused is
-- replaced by a Ping whose answer will be rewritten (Proxy/Replies). After Hello the proxy queues
-- messages of its own to learn who owns the names of its policy (Proxy/NameOps). Proxy/Output
-- (buffer_write, side_out_cb) writes the queues. Proxy/State has the record of a client, with one
-- field for each field of XdgAppProxyClient, ProxySide and Buffer that some decision reads, and the
-- routines that only move it (side_closed, queue_expected_reply, steal_expected_reply).
--
-- Proxy/CommandLine has the program around it, dbus-proxy/dbus-proxy.c: the options that set the
-- policies of a proxy, and the loop of main over the arguments, up to the main loop of GLib.
--
-- Db follows lib/xdg-app-db.c, the database of permissions. Db/Entry has its entries (make_entry to
-- xdg_app_db_entry_set_app_permissions), Db/State the record XdgAppDb and its opening (initable_init),
-- Db/Queries what it answers (xdg_app_db_list_ids, _list_apps, _list_ids_by_app, _lookup), Db/Update
-- what changes it (add_app_id, remove_app_id, xdg_app_db_set_entry), Db/Save its contents
-- (xdg_app_db_update, _save_content) and Db/Print its text. The proofs stand in Db/Index, for the map
-- from applications to ids, in Db/Save, for files, and in Db/Strings, for arrays and their order.
-- Functions have the names of the code less the prefix xdg_app_db_, with db_ or entry_ in front where
-- a name would be too general.
--
-- Store follows session-helper/xdg-app-permission-store.c, the service that has a Db for each table.
-- Store itself has a Table and its saves (ensure_writeout, start_writeout, writeout_done), and
-- Store/Handlers the methods (handle_list to handle_set_value). A handler returns the table and what it
-- answers, and a save that is under way ends with a call of writeout_done. Store/Spec has the map from
-- ids to values and permissions that the service stands for.
--
-- Portal follows document-portal/, the portal through which applications share documents. Its
-- database is a Db whose values are documents (Portal/Documents: xdp_entry_get_path to
-- do_set_permissions of xdp-util.c and xdp-main.c), and Portal/Flags has the permissions and names of
-- documents (xdg_unparse_permissions to xdp_name_from_id of xdp-util.c). Portal/Methods and Portal/Add
-- have the methods of xdp-main.c (portal_grant_permissions, portal_revoke_permissions, portal_delete;
-- portal_add). A method returns the database, what it tells the file system and the store to do, and
-- its answer. Portal/Fuse has the inodes and Portal/Tree the lookup of the file system of xdp-fuse.c
-- (xdp_stat, xdp_lookup, xdp_fuse_opendir).
--
-- Apart from these, Utils has the tests for names of applications and for branches of
-- lib/xdg-app-utils.c (xdg_app_is_valid_name, xdg_app_is_valid_branch), and Utils/Refs the refs that
-- are made of them (xdg_app_build_app_ref, xdg_app_decompose_ref).
--
-- How the model stands to the code. A function of the code is a function of the same name, less the
-- prefix xdg_app_proxy_; `init`, `Client` and `update_unique_id_policy` are examples. The branches of
-- a long function are functions of their own, named for what they do. Mutation is passed along: a
-- function takes the client and returns it. `Option` is NULL, or a crash where a comment says so;
-- Parsed tells a refusal from a crash and from fuel that ran out. Numbers are natural numbers, with
-- `% 2 ^ 32` written out for guint32 (u32). Offsets in a header have 27 bits at most, as a D-Bus
-- message has, and the theorems that need it say so. A hash table is a list of pairs, with the last
-- entry for a key in its place. A string is the list of its bytes without the zero. The loop over
-- header fields has fuel, the end of the fields plus one, since each turn moves forward; the loop of
-- main has fuel, the number of the arguments plus one, since each turn uses one; the search in an
-- entry has fuel, the number of its applications plus one, since each turn leaves fewer.
-- The loops over sockets are recursions on a script of what the socket answers turn by turn.
--
-- What is a parameter. Platform holds the codec of GLib (g_dbus_message_new_from_blob, _to_blob,
-- _bytes_needed) and what a string in freed memory reads as. The bytes in front of the data of a
-- buffer are a parameter of find_auth_end, because memmem is given the structure. IsTrusted states
-- what the proxy relies on of replies of the bus. Services holds what the command line asks of GLib:
-- g_dbus_is_name, and whether the proxy can listen. Variants holds what is asked of GVariant for the
-- value of an entry, and Storage what is asked of the file system and of the library gvdb, whose
-- tables are GvdbTable. Stores states that gvdb reads back the tables it wrote. Session adds the path
-- of a table. DocumentValues holds how the four parts of a document are put into a value, Kernel what
-- portal_add asks about a descriptor, and Outside what the file system of the portal asks of the one
-- below it. The conversion of a name to a number is that of g_ascii_strtoull, and ReadsHex states that
-- it reads hexadecimal digits. RefCodec holds g_strsplit, g_build_filename and the architecture, and
-- JoinsAndSplits states that the first two put parts together with slashes and split them again. The loop of do_create_doc runs over a list of the random numbers.
--
-- What is not modelled: freeing of memory other than the reference that the sockets hold, log
-- output, GObject properties, the asynchronous connecting of GLib, the library gvdb, and all else of
-- the repository, among it the files that the portal opens, writes and renames, the sandbox helper
-- and the command line.
pub mod Prelude
pub mod Proxy
pub mod Utils
pub mod Db
pub mod Store
pub mod Portal
