-- ===== src/Grpc/Typed.antt =====
-- The text fields of the endpoint picker's messages (src/grpc.rs) are strings, and so is what is
-- selected from them.
use ngx_inference.Prelude.{
  ◌≡◌, refl, sym, ◌∙◌, ap, Bool, true, ◌&&◌, List, [], ◌∷◌, ◌++◌, Option, none, some, arith,
}
use ngx_inference.Text.{Bytes}
use ngx_inference.Utf8.{is_utf8}
use ngx_inference.Utf8.Repair.{from_utf8_lossy-IsUtf8}
use ngx_inference.Grpc.Proto.{HeaderValueOption, ProcessingRequest, ProcessingResponse}
use ngx_inference.Grpc.Mutation.{all_offered, set_headers_of, first}
use ngx_inference.Grpc.Channel.{Tonic, Tls, Inbound}
use ngx_inference.Grpc.Stream.{stream_offers}

-- Whether the field `value` is a string; `raw_value` may be any bytes.
abbrev has_text : HeaderValueOption → Bool
has_text hvo = elim hvo.header [ none ↦ true | some hdr ↦ is_utf8 hdr.value ]

abbrev all_text : List HeaderValueOption → Bool
all_text [] = true
all_text (hvo ∷ rest) = has_text hvo && all_text rest

abbrev pub stream_text : List ProcessingResponse → Bool
stream_text [] = true
stream_text (m ∷ ms) = all_text (set_headers_of m) && stream_text ms

-- Whether a value is a string, if there is one.
abbrev is_text : Option Bytes → Bool
is_text none = true
is_text (some v) = is_utf8 v

offered-is_text :
    (key : Bytes) (hs : List HeaderValueOption)
    → all_text hs ≡ true
    → is_text (first (all_offered key hs)) ≡ true
offered-is_text key [] h = refl
offered-is_text key (hvo ∷ rest) h = grind (arith, from_utf8_lossy-IsUtf8, offered-is_text key rest)

first-append-is_text :
    (vs ws : List Bytes)
    → is_text (first vs) ≡ true
    → is_text (first ws) ≡ true
    → is_text (first (vs ++ ws)) ≡ true
first-append-is_text [] ws h k = k
first-append-is_text (v ∷ vs) ws h k = h

stream-is_text :
    (key : Bytes) (ms : List ProcessingResponse)
    → stream_text ms ≡ true
    → is_text (first (stream_offers key ms)) ≡ true
stream-is_text key [] h = refl
stream-is_text key (m ∷ ms) h =
    first-append-is_text (all_offered key (set_headers_of m)) (stream_offers key ms)
      (offered-is_text key (set_headers_of m) (ground (arith, h)))
      (stream-is_text key ms (ground (arith, h)))

-- A value that a stream of typed messages offers first is a string.
pub stream_offers-IsUtf8 :
    (key u : Bytes) (ms : List ProcessingResponse)
    → stream_text ms ≡ true
    → first (stream_offers key ms) ≡ some u
    → is_utf8 u ≡ true
stream_offers-IsUtf8 key u ms h e = ap is_text (sym e) ∙ stream-is_text key ms h

-- What the generated types say of every stream that arrives: a `String` is UTF-8.
pub record DecodesText (tonic : Tonic) : Type 0 where
  pub decodes :
      (uri : Bytes) (tls : Tls) (m : ProcessingRequest) (inbound : Inbound)
      → tonic.process uri tls m ≡ some inbound
      → stream_text inbound.messages ≡ true
