-- ===== src/Render/Revision.antt =====
-- compositeRevision: the key of a pod template, from a revision, an installable and its arguments.
-- SHA-256 in hexadecimal is an argument.
use Prim.Native.Nat.{zero, suc}
use Prim.Native.String.{len, ◌++◌}
use nio.Prelude.{ℕ, String, List, [], ◌∷◌}
use nio.Prelude.Decimal.{decimal}

-- writeField: `%d:%s` of the bytes' number and the text
unfoldable pub field : String → String
field s = decimal (len s) ++ ":" ++ s

-- The text that is hashed.
unfoldable pub fields : List String → String
fields [] = ""
fields (s ∷ rest) = field s ++ fields rest

-- sum[:n], for a sum of ASCII characters
abbrev pub first_chars : ℕ → String → String
first_chars zero s = String.[]
first_chars (suc n) String.[] = String.[]
first_chars (suc n) (String.◌∷◌ c s) = String.◌∷◌ c (first_chars n s)

unfoldable pub composite_revision : (String → String) → String → String → List String → String
composite_revision sha256_hex resolved_revision run args =
    "r-" ++ first_chars 12 (sha256_hex (fields (resolved_revision ∷ run ∷ args)))
