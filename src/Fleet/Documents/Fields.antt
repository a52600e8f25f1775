-- ===== src/Fleet/Documents/Fields.antt =====
-- documents.py: the shape of a document, the refusal of fields that look like secrets, and the
-- reading of one field. A refusal names the field and not the path to it. A name stands once in
-- `Members`, as in a dict. A field of the wrong type is refused where it is read; in the source its
-- constructor refuses it.
use aiggp_agentic_framework.Base.{
  ℕ, ◌+◌, String, Bool, true, false, not, ◌&&◌, ◌||◌, Option, none, some, List, [], ◌∷◌, ◌++◌,
  Result, ok, err, ◌>>=◌, ◌>>◌, require, require_some, each, contains, nat_eq, ◌==◌, if◌then◌else◌,
}
use aiggp_agentic_framework.Base.Text.{codes, in_range, at_end}
use aiggp_agentic_framework.Base.Sort.{pair_le, sort_by}
use aiggp_agentic_framework.Fleet.Values.{ModelError}
use aiggp_agentic_framework.Fleet.Wire.{
  Json, null, boolean, natural, string, array, object, Items, no_item, item, Members, no_member,
  member, member_of, member_names,
}

pub data DocumentError : Type 0 where
  not_object not_list secret_field wrong_schema : DocumentError
  missing unknown_field bad_field : String → DocumentError
  invalid : ModelError → DocumentError

-- The letters that `(?i)` takes for one of `a` to `z`, as that one.
abbrev folded : ℕ → ℕ
folded c =
    if in_range b'A' b'Z' c
    then c + 32
    else if nat_eq c 383
    then b's'
    else if nat_eq c 8490
    then b'k'
    else if nat_eq c 304 || nat_eq c 305
    then b'i'
    else c

abbrev is_joint : ℕ → Bool
is_joint c = nat_eq c b'_' || nat_eq c b'-'

-- `($|[_-])`
abbrev word_ends : List ℕ → Bool
word_ends [] = true
word_ends (c ∷ s) = is_joint c || at_end (c ∷ s)

-- `s?($|[_-])`
abbrev plural_ends : List ℕ → Bool
plural_ends [] = true
plural_ends (c ∷ s) = word_ends (c ∷ s) || (nat_eq (folded c) b's' && word_ends s)

starts : List ℕ → List ℕ → Bool
starts [] s = plural_ends s
starts (w ∷ ws) [] = false
starts (w ∷ ws) (c ∷ s) = if nat_eq w (folded c) then starts ws s else false

abbrev secret_words : List String
secret_words =
    "token" ∷ "password" ∷ "passwd" ∷ "secret" ∷ "apikey" ∷ "api_key" ∷ "api-key" ∷ "privatekey"
    ∷ "private_key" ∷ "private-key" ∷ "credential" ∷ []

any_word : List String → List ℕ → Bool
unfolding starts
any_word [] s = false
any_word (w ∷ ws) s = starts (codes w) s || any_word ws s

-- from a character on, which follows a joint
after_joint : List ℕ → Bool
unfolding any_word
after_joint [] = false
after_joint (c ∷ s) = (is_joint c && any_word secret_words s) || after_joint s

-- `_SECRET_KEY.search(key) and key not in _REFERENCE_KEYS`
unfoldable pub is_secret : String → Bool
unfolding any_word after_joint
is_secret key =
    not (key == "secret_profile") && (any_word secret_words (codes key) || after_joint (codes key))

-- `_reject_secret_values`, as the test of a document that has no such field
unfoldable mutual
  pub clean : Json → Bool
  clean (array items) = clean_items items
  clean (object fields) = clean_members fields
  clean _ = true

  pub clean_items : Items → Bool
  clean_items no_item = true
  clean_items (item value rest) = clean value && clean_items rest

  pub clean_members : Members → Bool
  clean_members no_member = true
  clean_members (member key value rest) = not (is_secret key) && (clean value && clean_members rest)

abbrev pub object_of : Json → Result DocumentError Members
object_of (object fields) = ok fields
object_of _ = err not_object

abbrev pub has_field : Members → String → Result DocumentError (Unit {0})
has_field fields name = do require_some (member_of name fields) (missing name); ok tt

-- `_shape`
unfoldable pub shape : List String → List String → Members → Result DocumentError (Unit {0})
shape required optional fields = do
  each (has_field fields) required
  each (λ name. require (contains (required ++ optional) name) (unknown_field name))
      (member_names fields)

-- `_object`, `_reject_secret_values` and `_shape`, with which every reader begins
unfoldable pub open_document : List String → List String → Json → Result DocumentError Members
open_document required optional doc = do
  fields ← object_of doc
  require (clean doc) secret_field
  shape required optional fields
  ok fields

abbrev pub as_text : String → Json → Result DocumentError String
as_text name (string s) = ok s
as_text name _ = err (bad_field name)

abbrev pub as_number : String → Json → Result DocumentError ℕ
as_number name (natural n) = ok n
as_number name _ = err (bad_field name)

abbrev pub as_flag : String → Json → Result DocumentError Bool
as_flag name (boolean b) = ok b
as_flag name _ = err (bad_field name)

abbrev pub as_optional : String → Json → Result DocumentError (Option String)
as_optional name null = ok none
as_optional name (string s) = ok (some s)
as_optional name _ = err (bad_field name)

-- `doc[name]`, or `doc.get(name, default)`
abbrev pub or_default : Json → Option Json → Json
or_default default none = default
or_default default (some value) = value

abbrev pub at_or : Json → String → Members → Json
at_or default name fields = or_default default (member_of name fields)

abbrev pub text_at : String → Members → Result DocumentError String
text_at name fields = as_text name (at_or null name fields)

abbrev pub number_at : String → Members → Result DocumentError ℕ
number_at name fields = as_number name (at_or null name fields)

abbrev pub optional_at : String → Members → Result DocumentError (Option String)
optional_at name fields = as_optional name (at_or null name fields)

-- `_list`
abbrev pub list_of : Json → Result DocumentError Items
list_of (array items) = ok items
list_of _ = err not_list

module _ {A : Type 0} (read : Json → Result DocumentError A) where
  unfoldable pub read_items : Items → Result DocumentError (List A)
  read_items no_item = ok []
  read_items (item value rest) = do x ← read value; xs ← read_items rest; ok (x ∷ xs)

abbrev pub texts_at : String → Json → Members → Result DocumentError (List String)
texts_at name default fields = do
  items ← list_of (at_or default name fields)
  read_items (as_text name) items

unfoldable pub labels_of : Members → Result DocumentError (List (String × String))
labels_of no_member = ok []
labels_of (member key value rest) = do
  text ← as_text key value
  labels ← labels_of rest
  ok ((key, text) ∷ labels)

-- `_pairs`
abbrev pub labels_at : String → Members → Result DocumentError (List (String × String))
labels_at name fields = do
  labels ← object_of (at_or null name fields)
  pairs ← labels_of labels
  ok (sort_by pair_le pairs)

-- `_enum`
abbrev pub choice : {A : Type 0} → (String → Option A) → String → Json → Result DocumentError A
choice choose name value = do line ← as_text name value; require_some (choose line) (bad_field name)
