-- ===== src/Nginx/Headers.antt =====
-- `get_header_in` (src/modules/bbr.rs): the value of a request header, by name.
use ngx_inference.Prelude.{
  ◌≡◌, refl, Bool, true, false, ◌&&◌, List, [], ◌∷◌, ◌++◌, Option, none, some, arith, if◌then◌else◌,
  ◌∙◌,
}
use ngx_inference.Text.{Bytes, eq_ignore_ascii_case, to_ascii_lowercase}
use ngx_inference.Text.Case.{eq_ignore_ascii_case-lowercase, eq_ignore_ascii_case_iff}
use ngx_inference.Utf8.{is_utf8, from_utf8}

abbrev pub Headers : Type 0
Headers = List (Bytes × Bytes)

-- Whether a header has the name: a name that is not UTF-8 matches none.
abbrev pub names : Bytes → Bytes → Bool
names key name = is_utf8 name && eq_ignore_ascii_case name key

-- The first header of the name decides; a value of it that is not UTF-8 gives `none`.
unfoldable pub get_header_in : Headers → Bytes → Option Bytes
get_header_in [] key = none
get_header_in ((name, value) ∷ hs) key =
    if names key name then from_utf8 value else get_header_in hs key

-- Whether some header has the name.
abbrev pub has_name : Headers → Bytes → Bool
has_name [] key = false
has_name ((name, value) ∷ hs) key = if names key name then true else has_name hs key

-- The case of the sought name does not matter.
pub get_header_in-lowercase :
    (hs : Headers) (key : Bytes) → get_header_in hs (to_ascii_lowercase key) ≡ get_header_in hs key
unfolding get_header_in
get_header_in-lowercase [] key = refl
get_header_in-lowercase ((name, value) ∷ hs) key =
    ground (arith, eq_ignore_ascii_case-lowercase name key, get_header_in-lowercase hs key)

-- A header appended behind others is found exactly when none of them has its name; otherwise the
-- answer is the one from before.
pub get_header_in-append :
    (hs more : Headers) (key : Bytes)
    → get_header_in (hs ++ more) key
      ≡ (if has_name hs key then get_header_in hs key else get_header_in more key)
unfolding get_header_in
get_header_in-append [] more key = refl
get_header_in-append ((name, value) ∷ hs) more key =
    ground (arith, get_header_in-append hs more key)

-- A header that is not there is not found.
pub get_header_in-none :
    (hs : Headers) (key : Bytes) → has_name hs key ≡ false → get_header_in hs key ≡ none
unfolding get_header_in
get_header_in-none [] key h = refl
get_header_in-none ((name, value) ∷ hs) key h = ground (arith, get_header_in-none hs key)

names_self : (key : Bytes) → is_utf8 key ≡ true → names key key ≡ true
names_self key h = rw (h, (eq_ignore_ascii_case_iff key key).1 refl)

-- A header that is appended where none has its name is found.
pub get_header_in-added :
    (hs : Headers) (key value : Bytes)
    → has_name hs key ≡ false
    → is_utf8 key ≡ true
    → is_utf8 value ≡ true
    → get_header_in (hs ++ ((key, value) ∷ [])) key ≡ some value
unfolding get_header_in from_utf8
get_header_in-added hs key value absent k v =
    get_header_in-append hs ((key, value) ∷ []) key ∙ ground (arith, names_self key k)
