-- ===== src/Counter/Total.antt =====
-- What a counter of kit-data/kit_data/counter.py reads after any changes of the counters.
use mathlib.Core.Option as Option
use kit_api_optimization.Prelude.{
  ℤ, pos, ◌+ℤ◌, ◌-ℤ◌, int_laws, String, string_eq, ◌==◌, eq_iff, eq_refl, eq-append_left, ◌≡◌, refl,
  ap, ◌∙◌, false, Bool-cases, inl, inr, Option, none, some, List, [], ◌∷◌, arith, if◌then◌else◌,
}
use kit_api_optimization.Exceptions.{Result, ok, err, response_error}
use kit_api_optimization.Redis.Persistent.{Value, num, incremented, Persistent}
use kit_api_optimization.Counter.{
  Counter, is_int64, in_range, fits, key, decode, replied, add, incr, decr, get, set, reset,
}

pub key-eq : (c : Counter) (i j : String) → (key c i == key c j) ≡ (i == j)
key-eq c i j = simp eq-append_left

pub data Change : Type 0 where
  increase decrease assign : String → ℤ → Change
  clear : String → Change

-- The sum and the difference, or the value as it was where Redis refuses the change.
abbrev pub raised : ℤ → ℤ → ℤ
raised v amount = if in_range v amount then v +ℤ amount else v

abbrev pub lowered : ℤ → ℤ → ℤ
lowered v amount =
    if is_int64 amount then (if in_range v (pos 0 -ℤ amount) then v -ℤ amount else v) else v

-- What a change makes of the counter `j`.
abbrev pub changed : String → Change → ℤ → ℤ
changed j (increase name amount) v = if name == j then raised v amount else v
changed j (decrease name amount) v = if name == j then lowered v amount else v
changed j (assign name n) v = if name == j then n else v
changed j (clear name) v = if name == j then pos 0 else v

abbrev pub total : String → List Change → ℤ → ℤ
total j [] v = v
total j (x ∷ xs) v = total j xs (changed j x v)

add_opposite : (v amount : ℤ) → v +ℤ (pos 0 -ℤ amount) ≡ v -ℤ amount
add_opposite v amount = grind int_laws

add_zero : (v : ℤ) → pos 0 +ℤ v ≡ v
add_zero v = grind int_laws

module _ {D : Type 0} (redis : Persistent D) (c : Counter) where
  open redis use {Db, incrby-get, get-set, get-delete}

  abbrev pub reading : String → Db → Result ℤ
  reading j db = decode (redis.get (key c j) db)

  pub apply : Change → Db → Db
  apply (increase name amount) db = (incr redis c name amount db).1
  apply (decrease name amount) db = (decr redis c name amount db).1
  apply (assign name n) db = (set redis c name n db).1
  apply (clear name) db = (reset redis c name db).1

  pub run : List Change → Db → Db
  run [] db = db
  run (x ∷ xs) db = run xs (apply x db)

  -- the new value by INCRBY, or none for an error reply
  abbrev bounded : Option (Value D) → ℤ → Option ℤ
  bounded raw amount = if fits raw amount then incremented raw amount else none

  bounded-reading :
      (raw : Option (Value D)) (amount v : ℤ)
      → decode raw ≡ ok v
      → bounded raw amount ≡ (if in_range v amount then some (v +ℤ amount) else none)
  bounded-reading none amount v h =
      let zero_read : pos 0 ≡ v = ground (arith, h) in rw (← zero_read) (rw (add_zero amount) refl)
  bounded-reading (some (num n)) amount v h = ground (arith, h)
  bounded-reading (some _) amount v h = cc

  reading-set :
      (name j : String) (n : ℤ) (db : Db)
      → reading j (redis.set (key c name) (num n) db) ≡ (if name == j then ok n else reading j db)
  reading-set name j n db = simp (get-set, key-eq) (ground arith)

  -- the reply for a new value, or for none
  abbrev stored : String → Option ℤ → Db → Result ℤ × Db
  stored k none db = (err response_error, db)
  stored k (some n) db = (ok n, redis.set k (num n) db)

  replied-map :
      (k : String) (o : Option ℤ) (db : Db)
      → replied redis (Option.map (λ n. (n, redis.set k (num n) db)) o) db ≡ stored k o db
  replied-map k none db = refl
  replied-map k (some n) db = refl

  add-eq :
      (k : String) (amount : ℤ) (db : Db)
      → add redis k amount db ≡ stored k (bounded (redis.get k db) amount) db
  unfolding add
  add-eq k amount db = elim (Bool-cases (fits (redis.get k db) amount)) [
    | inl fit ↦
        rw (fit, incrby-get k amount db) (replied-map k (incremented (redis.get k db) amount) db)
    | inr unfit ↦ rw unfit refl
  ]

  -- Adding to a counter that reads `v`.
  add-same :
      (j : String) (amount v : ℤ) (db : Db)
      → reading j db ≡ ok v
      → reading j (add redis (key c j) amount db).1 ≡ ok (raised v amount)
  add-same j amount v db h =
      rw (add-eq (key c j) amount db, bounded-reading (redis.get (key c j) db) amount v h)
        (elim (Bool-cases (in_range v amount)) [
          | inl fit ↦ rw fit (ground (arith, reading-set j j (v +ℤ amount) db, eq_refl j))
          | inr unfit ↦ rw unfit h
        ])

  add-other :
      (name j : String) (amount : ℤ) (db : Db)
      → (name == j) ≡ false
      → reading j (add redis (key c name) amount db).1 ≡ reading j db
  add-other name j amount db other =
      rw (add-eq (key c name) amount db) (go (bounded (redis.get (key c name) db) amount))
    where
      go : (o : Option ℤ) → reading j (stored (key c name) o db).1 ≡ reading j db
      go none = refl
      go (some n) = ground (arith, reading-set name j n db, other)

  added :
      (name j : String) (amount v : ℤ) (db : Db)
      → reading j db ≡ ok v
      → reading j (add redis (key c name) amount db).1
        ≡ ok (if name == j then raised v amount else v)
  added name j amount v db h = elim (Bool-cases (name == j)) [
    | inl same ↦ rw (same, (eq_iff name j).0 same) (add-same j amount v db h)
    | inr other ↦ rw other (add-other name j amount db other ∙ h)
  ]

  decreased :
      (name j : String) (amount v : ℤ) (db : Db)
      → reading j db ≡ ok v
      → reading j (decr redis c name amount db).1 ≡ ok (if name == j then lowered v amount else v)
  unfolding decr
  decreased name j amount v db h = elim (Bool-cases (is_int64 amount)) [
    | inl fit ↦ rw (fit, ← add_opposite v amount) (added name j (pos 0 -ℤ amount) v db h)
    | inr unfit ↦ rw unfit (ground (arith, h))
  ]

  apply-reading :
      (j : String) (x : Change) (v : ℤ) (db : Db)
      → reading j db ≡ ok v
      → reading j (apply x db) ≡ ok (changed j x v)
  unfolding apply incr set reset
  apply-reading j (increase name amount) v db h = added name j amount v db h
  apply-reading j (decrease name amount) v db h = decreased name j amount v db h
  apply-reading j (assign name n) v db h = ground (arith, reading-set name j n db, h)
  apply-reading j (clear name) v db h = simp (get-delete, key-eq) (ground (arith, h))

  -- After any changes of any counters a counter that could be read reads what its own changes make of
  -- its value, one after another: an increase or decrease by which Redis would leave the signed 64-bit
  -- integers, or that starts outside them, is refused and counts for nothing; no other counter's changes
  -- count, not even those that raise.
  pub run-total :
      (j : String) (xs : List Change) (v : ℤ) (db : Db)
      → (get redis c j db).0 ≡ ok v
      → get redis c j (run xs db) ≡ (ok (total j xs v), run xs db)
  unfolding get run
  run-total j [] v db h = ap (λ r. (r, db)) h
  run-total j (x ∷ xs) v db h =
      run-total j xs (changed j x v) (apply x db) (apply-reading j x v db h)
