-- ===== src/Proxy/Tests/BytesExamples.antt =====
-- Bytes of messages at work.
use xdg_app.Prelude.{
  Bool, Bytes, [], arith, false, if◌then◌else◌, ltb, refl, true, ℕ, ◌&&◌, ◌*◌, ◌++◌, ◌+◌, ◌/◌, ◌∷◌,
  ◌≡◌, ◌≤◌,
}
use xdg_app.Proxy.Header.{byte_order, parse_header}
use xdg_app.Proxy.Header.Accepted.{IsFramed}
use xdg_app.Proxy.Header.Serials.{Accepted, parse_header-Ends}
use xdg_app.Proxy.Wire.{get_string, invalid, ok, read_byte, read_uint32, word}
use xdg_app.Proxy.Wire.Ends.{AreBytes, Ends}
use xdg_app.Proxy.Wire.Strings.{encode_string, get_string-encode_string}

-- A call of M on the object /.
abbrev pub call_bytes : Bytes
call_bytes =
    108 ∷ 1 ∷ 0 ∷ 1 ∷ 0 ∷ 0 ∷ 0 ∷ 0 ∷ 1 ∷ 0 ∷ 0 ∷ 0 ∷ 26 ∷ 0 ∷ 0 ∷ 0 ∷ 1 ∷ 1 ∷ 111 ∷ 0 ∷ 1 ∷ 0 ∷ 0
    ∷ 0 ∷ 47 ∷ 0 ∷ 0 ∷ 0 ∷ 0 ∷ 0 ∷ 0 ∷ 0 ∷ 3 ∷ 1 ∷ 115 ∷ 0 ∷ 1 ∷ 0 ∷ 0 ∷ 0 ∷ 77 ∷ 0 ∷ 0 ∷ 0 ∷ 0 ∷ 0
    ∷ 0 ∷ 0 ∷ []

abbrev all_small : Bytes → Bool
all_small [] = true
all_small (b ∷ bytes) = ltb b 256 && all_small bytes

pub small-AreBytes : (bytes : Bytes) → all_small bytes ≡ true → AreBytes bytes
small-AreBytes [] h = tt
small-AreBytes (b ∷ bytes) h = (ground (arith, h), small-AreBytes bytes (ground (arith, h)))

call_room :
    (c : ℕ) (big_endian : Bool) (array_len : ℕ)
    → read_byte call_bytes 0 ≡ ok c
    → byte_order c ≡ ok big_endian
    → read_uint32 big_endian call_bytes 12 ≡ ok array_len
    → 8 * ((16 + array_len + 7) / 8) ≤ 48
unfolding read_byte byte_order read_uint32 word
call_room c big_endian array_len first order len = ground arith

pub call-IsFramed : IsFramed call_bytes 48
call-IsFramed = record {
  are_bytes = small-AreBytes call_bytes refl;
  whole = refl;
  small = omega arith;
  room = call_room;
}

parse_header-Ends_example :
    Ends (Accepted call_bytes 48 call-IsFramed 5 0 0) (parse_header call_bytes 48 5 0 0)
parse_header-Ends_example = parse_header-Ends call_bytes 48 call-IsFramed 5 0 0

get_string-encode_string_example :
    get_string false ([] ++ (encode_string false (77 ∷ []) ++ [])) 0 6
    ≡ (if ltb 1 256 then ok (77 ∷ [], 6) else invalid)
get_string-encode_string_example =
    get_string-encode_string false [] (77 ∷ []) [] 6 (λ e. omega (arith, e), tt) refl (omega arith)
      (omega arith)
