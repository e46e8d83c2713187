-- ===== src/Tests/State.antt =====
-- The theorems on src/state at concrete inputs.
use cometvisu_knxd_fcgi.Prelude.Int.{pos, negsuc}
use cometvisu_knxd_fcgi.Prelude.{refl, ap}
use cometvisu_knxd_fcgi.State.SharedGroupCache.Refinement.{get_delta_locked-Refines}
use cometvisu_knxd_fcgi.State.GroupCache
use cometvisu_knxd_fcgi.State.GroupCache.{GroupCache, collect}
use cometvisu_knxd_fcgi.Prelude.{ℕ, Bytes, List, ◌%◌, ◌∷◌, [], arith, ◌≡◌, ◌<◌, some, ◌≤◌}
use cometvisu_knxd_fcgi.State.GroupCache.History.{
  Telegram, IsRecent, IsCurrent, new_value, last_push, cache_of, get_delta-new_values,
}
use cometvisu_knxd_fcgi.State.Position.{modulus}
use cometvisu_knxd_fcgi.State.SharedGroupCache.{
  SharedCacheData, create, get_delta_locked, capacity, push_locked,
}
use cometvisu_knxd_fcgi.State.SharedGroupCache.Refinement.{
  Refines, push_locked-Refines, create-Refines,
}

abbrev addr : ℕ
addr = 0x0a03

abbrev value : Bytes
value = 0x81 ∷ 7 ∷ []

abbrev history : List Telegram
history =
    record { time = 20; addr = addr; value = value }
    ∷ record { time = 10; addr = 5; value = value }
    ∷ []

history-IsRecent : (a : ℕ) → IsRecent history a
history-IsRecent a q t e = omega arith

history-IsCurrent : IsCurrent history 1
history-IsCurrent = record {
  counted = omega arith;
  seen = omega arith;
  near = omega arith;
  started = omega arith;
}

get_delta-new_values_example :
    GroupCache.get_delta 30 (1 % modulus) (5 ∷ addr ∷ []) (negsuc 0) (cache_of history)
    ≡ record { values = collect (new_value 1 history) (5 ∷ addr ∷ []); position = 2 }
get_delta-new_values_example =
    get_delta-new_values 30 1 0 history (5 ∷ addr ∷ []) history-IsCurrent
      (history-IsRecent 5, (history-IsRecent addr, tt))

new_values_sample : collect (new_value 1 history) (5 ∷ addr ∷ []) ≡ (addr, value) ∷ []
unfolding collect
new_values_sample = refl

history-past : (q : ℕ) (t : Telegram) → last_push addr history ≡ some (q, t) → t.time ≤ 30
history-past q t e =
    let s : record { time = 20; addr = addr; value = value } ≡ t = cc in
    let u : 20 ≡ t.time = ap (λ (z : Telegram). z.time) s in omega (arith, u)

abbrev first : SharedCacheData
first = create capacity

abbrev second : SharedCacheData
second = push_locked 10 addr value first

abbrev second_cache : GroupCache
second_cache = GroupCache.push 10 addr value GroupCache.empty

first-free : first.num_entries < capacity
unfolding create
first-free = omega arith

push_locked-Refines_example : Refines second second_cache
push_locked-Refines_example =
    push_locked-Refines 10 addr value first GroupCache.empty create-Refines (omega arith)
      (omega arith) first-free

second-Refines : Refines second second_cache
second-Refines =
    push_locked-Refines 10 addr value first GroupCache.empty create-Refines (omega arith)
      (omega arith) first-free

get_delta_locked-Refines_example :
    get_delta_locked 20 0 (addr ∷ []) (pos 60) second
    ≡ GroupCache.get_delta 20 0 (addr ∷ []) (pos 60) second_cache
get_delta_locked-Refines_example =
    get_delta_locked-Refines 20 0 (addr ∷ []) (pos 60) second second_cache second-Refines
      ((λ q. absurd (omega arith)), tt)
