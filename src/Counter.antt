-- ===== src/Counter.antt =====
-- kit-data/kit_data/counter.py: `Counter` over a Redis that is a parameter.
pub mod Total
mod Tests
use kit_api_optimization.Prelude.{
  ℤ, pos, negsuc, ◌+ℤ◌, ◌-ℤ◌, leb_ℤ, Bool, true, ◌&&◌, if◌then◌else◌, String, string_eq, join, Dict,
  insert, Option, none, some, List, [], ◌∷◌,
}
use kit_api_optimization.Exceptions.{
  Result, ok, err, Method, pure, lift, gets, modify, ◌>>=◌, response_error, value_error,
}
use kit_api_optimization.Redis.Persistent.{Value, text, num, doc, Persistent}

pub record Counter : Type 0 where
  pub namespace : String

abbrev pub key : Counter → String → String
key c name = join (c.namespace ∷ ":" ∷ name ∷ [])

-- `int(raw) if raw is not None else 0`
abbrev pub decode : {D : Type 0} → Option (Value D) → Result ℤ
decode none = ok (pos 0)
decode (some (num n)) = ok n
decode (some (text s)) = err value_error
decode (some (doc d)) = err value_error

-- the signed 64-bit integers
unfoldable pub is_int64 : ℤ → Bool
is_int64 n = leb_ℤ (negsuc 9223372036854775807) n && leb_ℤ n (pos 9223372036854775807)

-- whether Redis reads the amount, and the value that stands there, as a 64-bit integer and the sum is one
abbrev pub in_range : ℤ → ℤ → Bool
in_range v amount = is_int64 v && (is_int64 amount && is_int64 (v +ℤ amount))

abbrev pub fits : {D : Type 0} → Option (Value D) → ℤ → Bool
fits none amount = in_range (pos 0) amount
fits (some (num n)) amount = in_range n amount
fits (some (text s)) amount = true
fits (some (doc d)) amount = true

module _ {D : Type 0} (redis : Persistent D) where
  open redis use {Db, incrby}

  abbrev pub replied : Option (ℤ × Db) → Db → Result ℤ × Db
  replied none db = (err response_error, db)
  replied (some (n, db')) db = (ok n, db')

  -- INCRBY, or an error reply: for a value that is no integer, and outside the 64 bits
  pub add : String → ℤ → Method Db ℤ
  add k amount db =
      if fits (redis.get k db) amount
      then replied (incrby k amount db) db
      else (err response_error, db)

  unfoldable pub incr : Counter → String → ℤ → Method Db ℤ
  unfolding add
  incr c name amount = add (key c name) amount

  -- DECRBY is INCRBY of the opposite, of an amount that is a 64-bit integer as well
  unfoldable pub decr : Counter → String → ℤ → Method Db ℤ
  unfolding add
  decr c name amount db =
      if is_int64 amount then add (key c name) (pos 0 -ℤ amount) db else (err response_error, db)

  unfoldable pub get : Counter → String → Method Db ℤ
  get c name = do raw ← gets (redis.get (key c name)); lift (decode raw)

  -- The comprehension over the names and the values that MGET returns.
  unfoldable pub collect : Counter → List String → Dict String ℤ → Method Db (Dict String ℤ)
  unfolding get
  collect c [] acc = pure acc
  collect c (name ∷ names) acc = do v ← get c name; collect c names (insert name v acc)

  unfoldable pub get_many : Counter → List String → Method Db (Dict String ℤ)
  unfolding collect
  get_many c names = collect c names []

  unfoldable pub set : Counter → String → ℤ → Method Db (Unit {0})
  set c name n = modify (redis.set (key c name) (num n))

  unfoldable pub reset : Counter → String → Method Db (Unit {0})
  reset c name = modify (redis.delete (key c name))
