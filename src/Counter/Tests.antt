-- ===== src/Counter/Tests.antt =====
-- `Counter` at concrete inputs, on the Redis of `Redis.Memory`.
use kit_api_optimization.Prelude.{pos, ◌+ℤ◌, String, ◌≡◌, refl, List, [], ◌∷◌}
use kit_api_optimization.Exceptions.{ok, err, response_error}
use kit_api_optimization.Redis.Persistent.{Value, text, num}
use kit_api_optimization.Redis.Memory.{persistent}
use kit_api_optimization.Counter.{Counter, is_int64, add, incr, get}
use kit_api_optimization.Counter.Total.{Change, increase, decrease, assign, total, run, run-total}

abbrev likes : Counter
likes = record { namespace = "kit:counter" }

-- the key of "b" holds a text
abbrev db : List (String × Value Unit)
db = ("kit:counter:b", text "x") ∷ []

abbrev changes : List Change
changes =
    increase "a" (pos 5) ∷ increase "b" (pos 1) ∷ decrease "a" (pos 2) ∷ assign "c" (pos 9) ∷ []

unset_zero : (get (persistent Unit) likes "a" db).0 ≡ ok (pos 0)
unfolding get
unset_zero = refl

-- a counter at its largest value stays there
largest :
    (incr
      (persistent Unit)
      likes
      "a"
      (pos 1)
      (("kit:counter:a", num (pos 9223372036854775807)) ∷ [])).0
    ≡ err response_error
unfolding incr add is_int64 ◌+ℤ◌
largest = refl

run-total_example :
    get (persistent Unit) likes "a" (run (persistent Unit) likes changes db)
    ≡ (ok (total "a" changes (pos 0)), run (persistent Unit) likes changes db)
run-total_example = run-total (persistent Unit) likes "a" changes (pos 0) db unset_zero
