-- ===== src/Wallet/Nonce.antt =====
-- src/lib/wallet/nonce.ts: the nonces that a connect message can use. The map of a store is a value,
-- the text that `random` gives and the clock are arguments. `remove` drops every entry of a key, of
-- which a map has at most one.
use stamppad.Prelude.{
  ℕ, ◌+◌, ◌<◌, ◌≡◌, refl, Bool, false, Option, none, some, List, [], ◌∷◌, All, ltb, leb, length,
  arith, if◌then◌else◌,
}
use stamppad.Prelude.Dict.{get, put, get-put, get-put_self}
use stamppad.Text.{Text, text_eq, text_key, text_eq_iff}

abbrev pub Outstanding : Type 0
Outstanding = List (Text × ℕ)

abbrev pub nonce_ttl_ms : ℕ
nonce_ttl_ms = 300000

unfoldable pub sweep : (now : ℕ) → Outstanding → Outstanding
sweep now [] = []
sweep now ((nonce, expires_at) ∷ m) =
    if leb expires_at now then sweep now m else (nonce, expires_at) ∷ sweep now m

-- outstanding.delete(nonce)
unfoldable pub remove : Outstanding → Text → Outstanding
remove [] nonce = []
remove ((other, expires_at) ∷ m) nonce =
    if text_eq other nonce then remove m nonce else (other, expires_at) ∷ remove m nonce

abbrev pub accepted : Option ℕ → (now : ℕ) → Bool
accepted none now = false
accepted (some expires_at) now = ltb now expires_at

unfoldable pub issue : (ttl_ms : ℕ) → (random : Text) → (now : ℕ) → Outstanding → Text × Outstanding
issue ttl_ms random now outstanding = (random, put (sweep now outstanding) random (now + ttl_ms))

unfoldable pub consume : (nonce : Text) → (now : ℕ) → Outstanding → Bool × Outstanding
consume nonce now outstanding =
    (accepted (get outstanding nonce) now, sweep now (remove outstanding nonce))

abbrev pub size : Outstanding → ℕ
size outstanding = length outstanding

-- The requests that a store answers, one after the other.
pub data NonceRequest : Type 0 where
  issue_of consume_of : (nonce : Text) → (now : ℕ) → NonceRequest

unfoldable pub after : (ttl_ms : ℕ) → NonceRequest → Outstanding → Outstanding
after ttl_ms (issue_of nonce now) m = (issue ttl_ms nonce now m).1
after ttl_ms (consume_of nonce now) m = (consume nonce now m).1

unfoldable pub run : (ttl_ms : ℕ) → List NonceRequest → Outstanding → Outstanding
run ttl_ms [] m = m
run ttl_ms (r ∷ rs) m = run ttl_ms rs (after ttl_ms r m)

-- The nonce is not issued again.
abbrev pub NotIssued : Text → NonceRequest → Type 0
NotIssued nonce (issue_of other now) = text_eq other nonce ≡ false
NotIssued nonce (consume_of other now) = Unit

-- The request is about another nonce, before the time.
abbrev pub ElsewhereBefore : Text → (expires_at : ℕ) → NonceRequest → Type 0
ElsewhereBefore nonce expires_at (issue_of other now) =
    (text_eq other nonce ≡ false) × (now < expires_at)
ElsewhereBefore nonce expires_at (consume_of other now) =
    (text_eq other nonce ≡ false) × (now < expires_at)

get-sweep-none :
    (now : ℕ) (m : Outstanding) (n : Text) → get m n ≡ none → get (sweep now m) n ≡ none
unfolding sweep get
get-sweep-none now [] n h = refl
get-sweep-none now ((k, e) ∷ m) n h = ground (arith, get-sweep-none now m n)

get-sweep-some :
    (now : ℕ) (m : Outstanding) (n : Text) (v : ℕ)
    → now < v
    → get m n ≡ some v
    → get (sweep now m) n ≡ some v
unfolding sweep get
get-sweep-some now [] n v lt h = absurd (ground arith)
get-sweep-some now ((k, e) ∷ m) n v lt h = ground (arith, get-sweep-some now m n v lt)

get-remove_self : (m : Outstanding) (n : Text) → get (remove m n) n ≡ none
unfolding remove get
get-remove_self [] n = refl
get-remove_self ((k, e) ∷ m) n = ground (arith, get-remove_self m n)

get-remove-none : (m : Outstanding) (k n : Text) → get m n ≡ none → get (remove m k) n ≡ none
unfolding remove get
get-remove-none [] k n h = refl
get-remove-none ((j, e) ∷ m) k n h = ground (arith, get-remove-none m k n)

get-remove_other :
    (m : Outstanding) (k n : Text) → text_eq k n ≡ false → get (remove m k) n ≡ get m n
unfolding remove get
get-remove_other [] k n d = refl
get-remove_other ((j, e) ∷ m) k n d =
    ground (arith, get-remove_other m k n d, text_eq_iff j k, text_eq_iff j n, text_eq_iff k n)

get-run-none :
    (ttl_ms : ℕ) (rs : List NonceRequest) (m : Outstanding) (n : Text)
    → All (NotIssued n) rs
    → get m n ≡ none
    → get (run ttl_ms rs m) n ≡ none
unfolding run after issue consume
get-run-none ttl_ms [] m n h g = g
get-run-none ttl_ms (issue_of k t ∷ rs) m n h g =
    get-run-none ttl_ms rs (put (sweep t m) k (t + ttl_ms)) n h.1
      (rw (get-put (sweep t m) k n (t + ttl_ms), h.0) (get-sweep-none t m n g))
get-run-none ttl_ms (consume_of k t ∷ rs) m n h g =
    get-run-none ttl_ms rs (sweep t (remove m k)) n h.1
      (get-sweep-none t (remove m k) n (get-remove-none m k n g))

get-run-some :
    (ttl_ms : ℕ) (rs : List NonceRequest) (m : Outstanding) (n : Text) (v : ℕ)
    → All (ElsewhereBefore n v) rs
    → get m n ≡ some v
    → get (run ttl_ms rs m) n ≡ some v
unfolding run after issue consume
get-run-some ttl_ms [] m n v h g = g
get-run-some ttl_ms (issue_of k t ∷ rs) m n v h g =
    get-run-some ttl_ms rs (put (sweep t m) k (t + ttl_ms)) n v h.1
      (rw (get-put (sweep t m) k n (t + ttl_ms), h.0.0) (get-sweep-some t m n v h.0.1 g))
get-run-some ttl_ms (consume_of k t ∷ rs) m n v h g =
    get-run-some ttl_ms rs (sweep t (remove m k)) n v h.1
      (get-sweep-some t (remove m k) n v h.0.1 (rw (get-remove_other m k n h.0.0) g))

-- Once a nonce is consumed, whatever requests follow at whatever times, in which the same nonce is
-- not issued again, consuming it is refused.
pub consume-consume :
    (ttl_ms : ℕ) (nonce : Text) (now later : ℕ) (m : Outstanding) (rs : List NonceRequest)
    → All (NotIssued nonce) rs
    → (consume nonce later (run ttl_ms rs (consume nonce now m).1)).0 ≡ false
unfolding consume
consume-consume ttl_ms nonce now later m rs h =
    rw
      (get-run-none ttl_ms rs (sweep now (remove m nonce)) nonce h
        (get-sweep-none now (remove m nonce) nonce (get-remove_self m nonce)))
      refl

-- A nonce that is issued is accepted before its time is over, whatever requests about other nonces
-- come between, at times before that, and from its time on it is refused.
pub consume-issue :
    (ttl_ms : ℕ) (nonce : Text) (now later : ℕ) (m : Outstanding) (rs : List NonceRequest)
    → All (ElsewhereBefore nonce (now + ttl_ms)) rs
    → (consume nonce later (run ttl_ms rs (issue ttl_ms nonce now m).1)).0
      ≡ ltb later (now + ttl_ms)
unfolding consume issue
consume-issue ttl_ms nonce now later m rs h =
    rw
      (get-run-some ttl_ms rs (put (sweep now m) nonce (now + ttl_ms)) nonce (now + ttl_ms) h
        (get-put_self (sweep now m) nonce (now + ttl_ms)))
      refl
