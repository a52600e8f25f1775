-- ===== src/Fleet/Documents/Labels.antt =====
-- documents.py: lists and label sets that are written and read back.
use aiggp_agentic_framework.Base.{
  String, true, false, not, none, List, [], ◌∷◌, Result, ok, ◌>>=◌, map, all, unique, contains, ◌≡◌,
  refl, arith,
}
use aiggp_agentic_framework.Base.Sort.{pair_le, sort_by}
use aiggp_agentic_framework.Fleet.Values.{Runtime}
use aiggp_agentic_framework.Fleet.Wire.{Json, string, no_member, member, member_of}
use aiggp_agentic_framework.Fleet.Documents.Fields.{
  DocumentError, is_secret, clean, clean_items, clean_members, as_text, read_items, labels_of,
}
use aiggp_agentic_framework.Fleet.Documents.Write.{runtime_text, items_of, labels_document}
use aiggp_agentic_framework.Fleet.Documents.Read.{runtime_of}
use aiggp_agentic_framework.Fleet.Documents.Parts.{runtime_named-text}

-- Every item is read as it was, and has no secret field.
module _ {A : Type 0} (write : A → Json) (read : Json → Result DocumentError A) where
  abbrev pub ReadsBack : List A → Type 0
  ReadsBack [] = Unit
  ReadsBack (x ∷ xs) = ((clean (write x) ≡ true) × (read (write x) ≡ ok x)) × ReadsBack xs

  pub read_items-items_of :
      (xs : List A) → ReadsBack xs → read_items read (items_of write xs) ≡ ok xs
  unfolding read_items items_of ◌>>=◌
  read_items-items_of [] h = refl
  read_items-items_of (x ∷ xs) (h, k) = rw (h.1, read_items-items_of xs k) refl

  pub clean_items-items_of : (xs : List A) → ReadsBack xs → clean_items (items_of write xs) ≡ true
  unfolding clean items_of
  clean_items-items_of [] h = refl
  clean_items-items_of (x ∷ xs) (h, k) = rw (h.0, clean_items-items_of xs k) refl

pub texts-ReadsBack : (name : String) (xs : List String) → ReadsBack string (as_text name) xs
unfolding clean
texts-ReadsBack name [] = tt
texts-ReadsBack name (x ∷ xs) = ((refl, refl), texts-ReadsBack name xs)

pub runtimes-ReadsBack :
    (xs : List Runtime) → ReadsBack (λ r. string (runtime_text r)) runtime_of xs
unfolding clean ◌>>=◌
runtimes-ReadsBack [] = tt
runtimes-ReadsBack (x ∷ xs) = ((refl, rw (runtime_named-text x) refl), runtimes-ReadsBack xs)

abbrev pub label_names : List (String × String) → List String
label_names labels = map (λ (label : String × String). label.0) labels

-- A label set as `_pairs` gives it: its names are unique, in order, and do not look like secrets.
pub record IsLabels (labels : List (String × String)) : Type 0 where
  pub in_order : sort_by pair_le labels ≡ labels
  pub names_once : unique (label_names labels) ≡ true
  pub no_secret : all (λ name. not (is_secret name)) (label_names labels) ≡ true

unique-cons :
    (x : String) (xs : List String)
    → unique (x ∷ xs) ≡ true
    → (contains xs x ≡ false) × (unique xs ≡ true)
unique-cons x xs h = ground arith

member_of-labels :
    (key : String) (labels : List (String × String))
    → unique (label_names labels) ≡ true
    → contains (label_names labels) key ≡ false
    → member_of key (labels_document labels) ≡ none
unfolding member_of labels_document
member_of-labels key [] u h = refl
member_of-labels key ((name, value) ∷ labels) u h =
    let (fresh, v) = unique-cons name (label_names labels) u in
    rw (member_of-labels name labels v fresh) (ground (arith, member_of-labels key labels v))

labels_document-nil : labels_document [] ≡ no_member
unfolding labels_document
labels_document-nil = refl

labels_document-cons :
    (name value : String) (labels : List (String × String))
    → unique (label_names ((name, value) ∷ labels)) ≡ true
    → labels_document ((name, value) ∷ labels) ≡ member name (string value) (labels_document labels)
unfolding labels_document
labels_document-cons name value labels u =
    let (fresh, v) = unique-cons name (label_names labels) u in
    rw (member_of-labels name labels v fresh) refl

pub labels_of-document :
    (labels : List (String × String))
    → unique (label_names labels) ≡ true
    → labels_of (labels_document labels) ≡ ok labels
unfolding labels_of ◌>>=◌
labels_of-document [] u = rw labels_document-nil refl
labels_of-document ((name, value) ∷ labels) u =
    rw
      (
        labels_document-cons name value labels u,
        labels_of-document labels (unique-cons name (label_names labels) u).1,
      )
      refl

pub clean_members-labels :
    (labels : List (String × String))
    → unique (label_names labels) ≡ true
    → all (λ name. not (is_secret name)) (label_names labels) ≡ true
    → clean_members (labels_document labels) ≡ true
unfolding clean
clean_members-labels [] u h = rw labels_document-nil refl
clean_members-labels ((name, value) ∷ labels) u h =
    rw (labels_document-cons name value labels u)
      (ground (arith, clean_members-labels labels (unique-cons name (label_names labels) u).1))
