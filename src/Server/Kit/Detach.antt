-- ===== src/Server/Kit/Detach.antt =====
-- server/server.py: what `detach` leaves at the end of a session.
use lumencast_py.Prelude.{
  ℕ, String, Bool, true, false, not, some, [], ◌∷◌, ◌≡◌, ◌≢◌, refl, ◌==◌, if◌then◌else◌, arith,
  ◌&&◌,
}
use lumencast_py.Prelude.Dict.{Dict, get}
use lumencast_py.Server.Scene.{contains, unsubscribe, discard}
use lumencast_py.Server.Scene.FanOut.{contains-keep}
use lumencast_py.Server.Subscription.{Subscription, modify, close}
use lumencast_py.Server.Kit.{Server, detach, detach_each, store}

-- whether some name of the registry has scene `i`
abbrev refers : ℕ → Dict ℕ → Bool
refers i [] = false
refers i ((a, j) ∷ d) = if j == i then true else refers i d

get-refers : (a : String) (i : ℕ) (d : Dict ℕ) → get a d ≡ some i → refers i d ≡ true
unfolding get
get-refers a i [] h = cc
get-refers a i ((b, j) ∷ d) h = ground (arith, get-refers a i d)

-- one round of the loop
abbrev detached_one : ℕ → ℕ → Server → Server
detached_one sub i w =
    store i (unsubscribe sub (w.at i) w.heap).0 (unsubscribe sub (w.at i) w.heap).1 w

contains-detached_one :
    (sub i : ℕ) (w : Server) (k j : ℕ)
    → contains k ((detached_one sub i w).at j).subscribers
      ≡ (contains k (w.at j).subscribers && not (i == j && sub == k))
unfolding unsubscribe discard
contains-detached_one sub i w k j =
    ground (arith, contains-keep (λ n. not (sub == n)) k (w.at i).subscribers)

heap-detached_one :
    (sub i : ℕ) (w : Server) (k : ℕ)
    → (detached_one sub i w).heap.at k ≡ (if sub == k then close (w.heap.at k) else w.heap.at k)
unfolding unsubscribe modify
heap-detached_one sub i w k = refl

close_twice : (s : Subscription) → close (close s) ≡ close s
unfolding close
close_twice s = ground arith

contains-detach_each :
    (sub : ℕ) (d : Dict ℕ) (w : Server) (k j : ℕ)
    → contains k ((detach_each sub d w).at j).subscribers
      ≡ (contains k (w.at j).subscribers && not (refers j d && sub == k))
unfolding detach_each
contains-detach_each sub [] w k j = ground arith
contains-detach_each sub ((a, i) ∷ d) w k j = ground (
  arith,
  contains-detach_each sub d (detached_one sub i w) k j,
  contains-detached_one sub i w k j,
)

is_empty : Dict ℕ → Bool
is_empty [] = true
is_empty ((a, i) ∷ d) = false

heap-detach_each :
    (sub : ℕ) (d : Dict ℕ) (w : Server) (k : ℕ)
    → (detach_each sub d w).heap.at k
      ≡ (if sub == k && not (is_empty d) then close (w.heap.at k) else w.heap.at k)
unfolding detach_each is_empty
heap-detach_each sub [] w k = ground arith
heap-detach_each sub ((a, i) ∷ []) w k =
    ground (arith, heap-detached_one sub i w k, heap-detach_each sub [] (detached_one sub i w) k)
heap-detach_each sub ((a, i) ∷ (b, j) ∷ d) w k = ground (
  arith,
  heap-detach_each sub ((b, j) ∷ d) (detached_one sub i w) k,
  heap-detached_one sub i w k,
  close_twice (w.heap.at k),
)

-- What is left once the session of `sub` has ended.
pub record Detached (sub : ℕ) (w v : Server) : Type 0 where
  pub gone :
      (a : String) (i : ℕ) → get a v.scenes ≡ some i → contains sub (v.at i).subscribers ≡ false
  pub kept : (k i : ℕ) → k ≢ sub → contains k (v.at i).subscribers ≡ contains k (w.at i).subscribers
  pub closed :
      (a : String) (i : ℕ) → get a v.scenes ≡ some i → v.heap.at sub ≡ close (w.heap.at sub)
  pub untouched : (k : ℕ) → k ≢ sub → v.heap.at k ≡ w.heap.at k

scenes-detach_each : (sub : ℕ) (d : Dict ℕ) (w : Server) → (detach_each sub d w).scenes ≡ w.scenes
unfolding detach_each
scenes-detach_each sub [] w = refl
scenes-detach_each sub ((a, i) ∷ d) w = scenes-detach_each sub d (detached_one sub i w)

get-is_empty : (a : String) (i : ℕ) (d : Dict ℕ) → get a d ≡ some i → is_empty d ≡ false
unfolding get is_empty
get-is_empty a i [] h = cc
get-is_empty a i (b ∷ d) h = refl

-- At the end of a session no registered scene has its subscription, whichever scenes it was
-- moved to, the subscription is closed if any scene is registered, and the other subscriptions
-- and who holds them are as before.
pub detach-Detached : (sub : ℕ) (w : Server) → Detached sub w (detach sub w)
unfolding detach
detach-Detached sub w = record {
  gone = λ a i h. ground (
    arith,
    contains-detach_each sub w.scenes w sub i,
    get-refers a i w.scenes (rw (scenes-detach_each sub w.scenes w) at h),
  );
  kept = λ k i ne. ground (arith, contains-detach_each sub w.scenes w k i);
  closed = λ a i h. ground (
    arith,
    heap-detach_each sub w.scenes w sub,
    get-is_empty a i w.scenes (rw (scenes-detach_each sub w.scenes w) at h),
  );
  untouched = λ k ne. ground (arith, heap-detach_each sub w.scenes w k);
}
