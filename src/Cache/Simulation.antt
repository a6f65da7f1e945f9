-- ===== src/Cache/Simulation.antt =====
-- A cache that simulates the specification, call by call and over sequences of calls.
use cs389hw.Shared.{
  ◌≡◌, refl, ap, ◌∙◌, List, [], ◌∷◌, map, Key, Result, Ends, answered, sym, halted, ok, stop, ◌>>=◌,
}
use cs389hw.Cache.{Cache, Call, Reply, perform, perform_all}
use cs389hw.Cache.Bounded
use cs389hw.Cache.Bounded.{Bounded}

abbrev pub All : (Call → Type 0) → List Call → Type 0
All IsFine [] = Unit
All IsFine (call ∷ calls) = IsFine call × All IsFine calls

-- The replies of a sequence of calls.
unfoldable pub replies_of : {W : Type 0} → Result (List Reply × W) → Result (List Reply)
replies_of (ok (rs, w)) = ok rs
replies_of (stop e) = stop e

replies_of-cons :
    {W : Type 0} (reply : Reply) (r : Result (List Reply × W))
    → replies_of (r >>= λ (rs, w). ok (reply ∷ rs, w))
      ≡ (replies_of r >>= λ rest. ok (reply ∷ rest))
unfolding replies_of
replies_of-cons reply (ok (rs, w)) = refl
replies_of-cons reply (stop e) = refl

-- The replies of the specification, as a user of the cache sees them.
abbrev pub seen_by : (Reply → Reply) → Result (List Reply) → Result (List Reply)
seen_by seen r = r >>= λ rs. ok (map seen rs)

seen_by-cons :
    (seen : Reply → Reply) (reply : Reply) (r : Result (List Reply))
    → seen_by seen (r >>= λ rest. ok (reply ∷ rest))
      ≡ (seen_by seen r >>= λ rest. ok (seen reply ∷ rest))
seen_by-cons seen reply (ok rs) = refl
seen_by-cons seen reply (stop e) = refl

module _ {W : Type 0} (c : Cache W) (Fits : W → Bounded → Type 0) (IsFine : Call → Type 0)
    (seen : Reply → Reply) (touched : Key → List Key → List Key) where
  abbrev pub Simulates : Type 0
  Simulates =
      (call : Call) (w : W) (a : Bounded)
      → Fits w a
      → IsFine call
      → Ends Fits (perform c call w) (Bounded.perform touched call a >>= λ (r, b). ok (seen r, b))

  module _ (simulates : Simulates) where
    rest_lem :
        (calls : List Call) {r : Result (Reply × W)} (q : Result (Reply × Bounded))
        → ((w : W) (a : Bounded)
            → Fits w a
            → replies_of (perform_all c calls w) ≡ seen_by seen (Bounded.replies touched calls a))
        → Ends Fits r (q >>= λ (r, b). ok (seen r, b))
        → replies_of (
            r >>= λ (reply, w). (perform_all c calls w >>= λ (replies, w). ok (reply ∷ replies, w)))
          ≡ seen_by seen
              (q >>= λ (reply, b). (Bounded.replies touched calls b >>= λ rest. ok (reply ∷ rest)))
    unfolding replies_of
    rest_lem calls {r} (ok (reply, b)) next e =
        let (s, run, h) = answered e refl in
        rw run (
          replies_of-cons (seen reply) (perform_all c calls s)
          ∙ ap (λ x. x >>= λ rest. ok (seen reply ∷ rest)) (next s b h)
          ∙ sym (seen_by-cons seen reply (Bounded.replies touched calls b)))
    rest_lem calls (stop x) next (halted y) = refl

    pub replies_lem :
        (calls : List Call) (w : W) (a : Bounded)
        → Fits w a
        → All IsFine calls
        → replies_of (perform_all c calls w) ≡ seen_by seen (Bounded.replies touched calls a)
    unfolding replies_of perform_all Bounded.replies
    replies_lem [] w a h fine = refl
    replies_lem (call ∷ calls) w a h (now, later) =
        rest_lem calls (Bounded.perform touched call a) (λ w a h. replies_lem calls w a h later)
          (simulates call w a h now)
