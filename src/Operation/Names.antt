-- ===== src/Operation/Names.antt =====
-- The names of the kinds on the wire.
use linux_class.Common.{◌≡◌, refl, some, str_eq}
use linux_class.Operation.{OpKind, invalid, insert, delete, noop, kind_name, kind_from_name}

-- Every valid kind is read back from its name; `invalid` has no name that is read.
pub kind_from_name-kind_name : (k : OpKind) → kind_from_name (some (kind_name k)) ≡ k
unfolding kind_from_name kind_name str_eq
kind_from_name-kind_name insert = refl
kind_from_name-kind_name delete = refl
kind_from_name-kind_name noop = refl
kind_from_name-kind_name invalid = refl
