-- ===== src/Model.antt =====
-- The model name in a JSON body (src/model_extractor.rs). JSON itself is serde_json's: its parser
-- and its accessors are the parameter `Json`.
use ngx_inference.Prelude.{◌≡◌, refl, Option, none, some, true}
use ngx_inference.Text.{Bytes, bytes}
use ngx_inference.Utf8.{is_utf8, from_utf8}

pub record Json : Type 1 where
  pub Value : Type 0
  -- `serde_json::from_str::<Value>`.
  pub from_str : Bytes → Option Value
  -- `Value::get` by a key.
  pub get : Value → Bytes → Option Value
  -- `Value::as_str`.
  pub as_str : Value → Option Bytes

-- Rust's `str` is UTF-8, so what `as_str` returns is.
pub record TextIsUtf8 (json : Json) : Type 0 where
  pub as_str-utf8 : (v : json.Value) (s : Bytes) → json.as_str v ≡ some s → is_utf8 s ≡ true

infixl 5 ◌>>=◌
abbrev ◌>>=◌ : {A B : Type 0} → Option A → (A → Option B) → Option B
none >>= f = none
some a >>= f = f a

unfoldable pub extract_model_from_body : Json → Bytes → Option Bytes
extract_model_from_body json body = do
  json_str ← from_utf8 body
  value ← json.from_str json_str
  member ← json.get value (bytes "model")
  json.as_str member

>>=-eq-some :
    {A B : Type 0} (o : Option A) (f : A → Option B) {b : B}
    → (o >>= f) ≡ some b
    → (a : A) × (o ≡ some a) × (f a ≡ some b)
>>=-eq-some none f h = cc
>>=-eq-some (some a) f h = (a, refl, h)

-- A name that is extracted is UTF-8.
pub extract_model-utf8 :
    (json : Json) (body : Bytes) {m : Bytes}
    → TextIsUtf8 json
    → extract_model_from_body json body ≡ some m
    → is_utf8 m ≡ true
unfolding extract_model_from_body
extract_model-utf8 json body u h =
    let (s, _, h1) = >>=-eq-some (from_utf8 body) _ h in
    let (v, _, h2) = >>=-eq-some (json.from_str s) _ h1 in
    let (member, _, h3) = >>=-eq-some (json.get v (bytes "model")) _ h2 in u.as_str-utf8 member _ h3

-- A body that is UTF-8 and JSON with a member `model` that is a string gives that string, whatever
-- it is: the empty one too.
pub extract_model_string :
    (json : Json) (body m : Bytes) {v member : json.Value}
    → is_utf8 body ≡ true
    → json.from_str body ≡ some v
    → json.get v (bytes "model") ≡ some member
    → json.as_str member ≡ some m
    → extract_model_from_body json body ≡ some m
unfolding extract_model_from_body from_utf8
extract_model_string json body m utf8 parsed found text = rw (utf8, parsed, found, text)
