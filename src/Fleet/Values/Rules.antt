-- ===== src/Fleet/Values/Rules.antt =====
-- model.py: the refusals and the scalar rules. `instant` is the ISO-8601 parser of Python's
-- `datetime`: the instant of a text that carries an offset, or nothing.
use aiggp_agentic_framework.Base.{
  ℕ, String, Bool, false, ◌&&◌, ◌||◌, Option, none, some, List, [], ◌∷◌, Result, ok, err, require,
  leb, nat_eq, if◌then◌else◌,
}
use aiggp_agentic_framework.Base.Text.{
  codes, is_lower, is_digit, is_alnum, in_range, one_of, headed, up_to, exactly, many,
}

-- A refusal names the field, or the rule, that it breaks.
pub data ModelError : Type 0 where
  bad : String → ModelError
  unknown : String → String → ModelError
  duplicate : String → ModelError
  refused : String → ModelError

-- The scalar rules.
abbrev id_rest : ℕ → Bool
id_rest c = is_lower c || is_digit c || one_of (b'.' ∷ b'_' ∷ b'-' ∷ []) c

abbrev request_rest : ℕ → Bool
request_rest c = is_alnum c || one_of (b'.' ∷ b'_' ∷ b':' ∷ b'-' ∷ []) c

abbrev repository_char : ℕ → Bool
repository_char c = is_alnum c || one_of (b'_' ∷ b'.' ∷ b'-' ∷ []) c

abbrev pub hex_char : ℕ → Bool
hex_char c = is_digit c || in_range b'a' b'f' c

abbrev text_char : ℕ → Bool
text_char c = is_alnum c || one_of (b' ' ∷ b'.' ∷ b',' ∷ b':' ∷ b'/' ∷ b'_' ∷ b'+' ∷ b'-' ∷ []) c

unfoldable pub is_identifier : String → Bool
unfolding headed up_to
is_identifier s = headed (λ c. is_lower c || is_digit c) id_rest 63 (codes s)

unfoldable pub is_request_id : String → Bool
unfolding headed up_to
is_request_id s = headed is_alnum request_rest 127 (codes s)

-- one character or more, to the end
leads : List ℕ → Bool
leads [] = false
leads (c ∷ s) = repository_char c && many repository_char s

-- the owner's characters, then the slash
owner_then : List ℕ → Bool
owner_then [] = false
owner_then (c ∷ s) =
    let rest = owner_then s in if nat_eq c b'/' then leads s else repository_char c && rest

unfoldable pub is_repository : String → Bool
unfolding many leads owner_then
is_repository s = elim (codes s) [ [] ↦ false | c ∷ r ↦ repository_char c && owner_then r ]

-- a literal prefix, then the rest
after : List ℕ → List ℕ → (List ℕ → Bool) → Bool
after [] s k = k s
after (p ∷ ps) [] k = false
after (p ∷ ps) (c ∷ s) k = nat_eq c p && after ps s k

unfoldable pub is_digest : String → Bool
unfolding exactly after
is_digest s = after (codes "sha256:") (codes s) (exactly hex_char 64)

unfoldable pub is_text : String → Bool
unfolding headed up_to
is_text s = headed text_char text_char 95 (codes s)

abbrev pub identifier : String → String → Result ModelError (Unit {0})
identifier value place = require (is_identifier value) (bad place)

abbrev pub request_id : String → String → Result ModelError (Unit {0})
request_id value place = require (is_request_id value) (bad place)

abbrev pub repository_name : String → String → Result ModelError (Unit {0})
repository_name value place = require (is_repository value) (bad place)

abbrev pub digest : String → String → Result ModelError (Unit {0})
digest value place = require (is_digest value) (bad place)

abbrev pub text : String → String → Result ModelError (Unit {0})
text value place = require (is_text value) (bad place)

abbrev pub count : ℕ → String → ℕ → Result ModelError (Unit {0})
count value place minimum = require (leb minimum value) (bad place)

-- `_timestamp` and `_instant`: the instant of a text, or the refusal of its field.
abbrev pub timestamp : (String → Option ℕ) → String → String → Result ModelError ℕ
timestamp instant value place = elim (instant value) [ none ↦ err (bad place) | some t ↦ ok t ]

-- A field that may be absent is checked only where it is given.
abbrev pub optional :
    (String → Result ModelError (Unit {0})) → Option String → Result ModelError (Unit {0})
optional f none = ok tt
optional f (some x) = f x

-- `^ref:[a-z0-9][a-z0-9._-]{0,63}$` of operations.py
unfoldable pub is_reference : String → Bool
unfolding headed up_to after
is_reference s = after (codes "ref:") (codes s) (headed (λ c. is_lower c || is_digit c) id_rest 63)
