-- ===== src/Render/Proofs/Revision.antt =====
-- About compositeRevision: which inputs share a key.
use Prim.Native.Char.{Char, code}
use Prim.Native.String.len
use Prim.Native.String.{len}
use nio.Prelude.{String, [], ◌∷◌, eqb, if◌then◌else◌, ◌==◌}

-- What stands before the first colon, and after it.
abbrev before_colon : Char → String × String → String × String
before_colon c (s, rest) = (String.◌∷◌ c s, rest)

cut : String → String × String
cut String.[] = (String.[], String.[])
cut (String.◌∷◌ c s) =
    let later = cut s in if eqb (code c) b':' then (String.[], s) else before_colon c later

-- A hash that tells one text from all others.
abbrev marking : String → String → String
marking text t = if t == text then "a" else "b"
