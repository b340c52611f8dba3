-- ===== src/Persistence/Reading.antt =====
-- internal/persistence/aof.go: the operations of the append-only file.
use gocache.Prelude.{
  ℕ, zero, suc, Bool, true, false, Option, none, some, List, [], ◌∷◌, ◌++◌, length, ite, Outcome,
  done, panic, blocked, ◌>>=◌,
}
use gocache.Prelude.Int.{ℤ, pos}
use gocache.Prelude.Maps.{Bytes, bytes_discrete}
use gocache.Prelude.Decimal.{parse_int}
use gocache.Resp.{
  Value, Items, str, int, arr, nil, cons, ParseError, eof, unexpected_eof, unknown_type,
  missing_crlf, bad_integer, bad_bulk_length, bad_array_length, expected_cr, expected_lf, good, bad,
  crash, starved, parse,
}
use gocache.Persistence.{set_word, del_word}

pub record Operation : Type 0 where
  pub kind : Bytes
  pub key : Bytes
  pub value : Bytes
  pub ttl : ℤ

-- `make([]string, n)`
abbrev pub empty_strings : Items → List Bytes
empty_strings nil = []
empty_strings (cons v vs) = [] ∷ empty_strings vs

-- The strings of an array; the conversion stops at the first element of another type.
unfoldable pub as_parts : Items → List Bytes
as_parts nil = []
as_parts (cons (str s) vs) = s ∷ as_parts vs
as_parts (cons (int z) vs) = empty_strings (cons (int z) vs)
as_parts (cons (arr us) vs) = empty_strings (cons (arr us) vs)

-- `ttlSeconds, err := strconv.ParseInt(parts[3], 10, 64)`, and 0 on an error
abbrev pub or_zero : Option ℤ → ℤ
or_zero none = pos 0
or_zero (some z) = z

abbrev pub ttl_of : List Bytes → ℤ
ttl_of [] = pos 0
ttl_of (t ∷ ps) = or_zero (parse_int t)

abbrev pub empty_operation : Bytes → Operation
empty_operation kind = record { kind = kind; key = []; value = []; ttl = pos 0 }

-- The two branches, by the parts after the first.
abbrev pub set_fields : Bytes → List Bytes → Operation
set_fields kind [] = empty_operation kind
set_fields kind (key ∷ []) = empty_operation kind
set_fields kind (key ∷ value ∷ ps) = record {
  kind = kind;
  key = key;
  value = value;
  ttl = ttl_of ps;
}

abbrev pub del_fields : Bytes → List Bytes → Operation
del_fields kind [] = empty_operation kind
del_fields kind (key ∷ ps) = record (empty_operation kind) { key = key }

unfoldable pub operation_of : Bytes → List Bytes → Operation
operation_of kind ps =
    ite (bytes_discrete kind set_word) (set_fields kind ps)
      (ite (bytes_discrete kind del_word) (del_fields kind ps) (empty_operation kind))

-- What one value adds to the operations: nothing if it is not an array, or an empty one.
unfoldable pub entry_operations : Value → List Operation
unfolding operation_of as_parts
entry_operations (str s) = []
entry_operations (int z) = []
entry_operations (arr nil) = []
entry_operations (arr (cons v vs)) = elim (as_parts (cons v vs)) [
  | [] ↦ []
  | kind ∷ ps ↦ operation_of kind ps ∷ []
]

-- `err == io.EOF`
abbrev pub is_eof : ParseError → Bool
is_eof eof = true
is_eof unexpected_eof = false
is_eof unknown_type = false
is_eof missing_crlf = false
is_eof bad_integer = false
is_eof bad_bulk_length = false
is_eof bad_array_length = false
is_eof expected_cr = false
is_eof expected_lf = false

-- ReadOperations: an entry that cannot be read is passed over, up to the end of the file. Each
-- round has more fuel for `parse` than bytes.
unfoldable pub read_operations : ℕ → Bytes → Outcome (List Operation)
unfolding entry_operations
read_operations zero input = blocked
read_operations (suc n) input = elim (parse (suc (length input)) input) [
  | bad e rest ↦ elim (is_eof e) [ true ↦ done [] | false ↦ read_operations n rest ]
  | crash ↦ panic
  | starved ↦ blocked
  | good v rest ↦ read_operations n rest >>= λ ops. done (entry_operations v ++ ops)
]
