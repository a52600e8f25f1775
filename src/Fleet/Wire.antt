-- ===== src/Fleet/Wire.antt =====
-- JSON values and what the fleet's signed documents use of Python's standard library.
use aiggp_agentic_framework.Base.{
  ℕ, String, Bool, Option, none, some, List, [], ◌∷◌, ◌==◌, if◌then◌else◌,
}

-- A number that is not a natural one stands as its text.
mutual
  pub data Json : Type 0 where
    null : Json
    boolean : Bool → Json
    natural : ℕ → Json
    numeral : String → Json
    string : String → Json
    array : Items → Json
    object : Members → Json

  pub data Items : Type 0 where
    no_item : Items
    item : Json → Items → Items

  pub data Members : Type 0 where
    no_member : Members
    member : String → Json → Members → Members

unfoldable pub member_of : String → Members → Option Json
member_of name no_member = none
member_of name (member key value rest) = if key == name then some value else member_of name rest

unfoldable pub member_names : Members → List String
member_names no_member = []
member_names (member key value rest) = key ∷ member_names rest

-- An instant is a number of microseconds, and a `bytes` value a text with one character per byte.
-- `instant` is `datetime.fromisoformat` of a text that carries an offset, `stamp` prints an
-- instant in UTC, `digest16` is the head of the hexadecimal SHA-256, `hex` and `unhex` are those of
-- `bytes`, `loads` parses JSON, `dumps` prints it with sorted keys and no blanks where it can, and
-- `size` is the length of a text in UTF-8.
pub record Platform : Type 0 where
  pub instant : String → Option ℕ
  pub stamp : ℕ → String
  pub digest16 : String → String
  pub hex : String → String
  pub unhex : String → Option String
  pub loads : String → Option Json
  pub dumps : Json → Option String
  pub size : String → ℕ

-- a signature provider: whether the signature verifies, or nothing where the provider raises
abbrev pub Verifier : Type 0
Verifier = String → String → String → Option Bool

abbrev pub second : ℕ
second = 1000000
