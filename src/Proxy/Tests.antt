-- ===== src/Proxy/Tests.antt =====
-- Concrete messages, clients and buffers for the parts of dbus-proxy/xdg-app-proxy.c.
mod BytesExamples
mod ClientExamples
mod BusExamples
mod SocketExamples
mod WholeExamples
mod CommandExamples
use xdg_app.Prelude.{Bytes, [], false, some, true, ◌∷◌}
use xdg_app.Proxy.Header.{Header, message_error, method_call, signal, zero_header}
use xdg_app.Proxy.Message.{Platform, new_message, text, tuple}
use xdg_app.Proxy.Policy.{Proxy, see, talk}
use xdg_app.Proxy.State.{Buffer, Client, buffer_new, client_new}

-- A codec that knows one message.
abbrev pub toy : Platform
toy = record {
  from_blob = λ blob. some (record new_message { body = some (tuple (text blob ∷ [])) });
  to_blob = λ m. 108 ∷ m.serial ∷ [];
  bytes_needed = λ blob. some 16;
  freed = λ s. s;
}

abbrev pub test_name : Bytes
test_name = 97 ∷ 46 ∷ 98 ∷ []

abbrev pub test_proxy : Proxy
test_proxy = record {
  log_messages = false;
  filter = true;
  wildcard_policy = (97 ∷ [], talk) ∷ [];
  policy = (test_name, see) ∷ [];
}

abbrev pub test_client : Client
test_client = client_new test_proxy

abbrev pub test_buffer : Buffer
test_buffer = record (buffer_new 0) { size = 3; bytes = test_name; pos = 3 }

abbrev pub test_call : Header
test_call = record zero_header {
  message_type = method_call;
  serial = 7;
  destination = some test_name;
  path = some (47 ∷ []);
  member = some (77 ∷ []);
}

abbrev pub test_reply : Header
test_reply = record zero_header {
  message_type = message_error;
  serial = 7;
  has_reply_serial = true;
  reply_serial = 4;
}

abbrev pub test_signal : Header
test_signal = record zero_header {
  message_type = signal;
  serial = 7;
  sender = some (58 ∷ 49 ∷ []);
  path = some (47 ∷ []);
  interface = some (97 ∷ []);
  member = some (77 ∷ []);
}
