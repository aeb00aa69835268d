-- ===== src/Conn/History.antt =====
-- How a field of the connection follows from the calls so far, whatever field it is.
use sockstats.Common.Int.{ℤ, is_zero}
use sockstats.Common.{
  ◌≡◌, refl, sym, ap, ◌∙◌, Bool, true, false, Option, none, some, List, [], ◌∷◌, if◌then◌else◌, All,
  fold_items, picks, cons_some, first_or,
}
use sockstats.Conn.Effect.{
  Watches, free, after, after_all, finally, all_reports, session-free, wrapped,
}
use sockstats.Conn.Methods.{Call, session}
use sockstats.Conn.Platform.{Platform}
use sockstats.Conn.Report.{Callback, Probe, is_set}
use sockstats.Conn.State.{NetConn, Conn, World}

-- The first value that is not zero stays.
abbrev pub or_first : Option ℤ → ℤ → ℤ
or_first none x = x
or_first (some y) x = if is_zero x then y else x

abbrev pub NonZero : ℤ → Type 0
NonZero x = is_zero x ≡ false

or_first-NonZero : (q : Option ℤ) (x : ℤ) → NonZero x → or_first q x ≡ x
or_first-NonZero none x h = refl
or_first-NonZero (some y) x h = rw (h)

module _ {A : Type 0} (p : A → Option ℤ) where
  fold_items-or_first_set :
      (os : List A) (x : ℤ) → NonZero x → fold_items (λ o. or_first (p o)) os x ≡ x
  fold_items-or_first_set [] x h = refl
  fold_items-or_first_set (o ∷ os) x h =
      rw (or_first-NonZero (p o) x h) (fold_items-or_first_set os x h)

  or_first-first_or :
      (q : Option ℤ) (os : List A) (x : ℤ)
      → is_zero x ≡ true
      → (All NonZero (picks p os) → fold_items (λ o. or_first (p o)) os x ≡ first_or x (picks p os))
      → All NonZero (cons_some q (picks p os))
      → fold_items (λ o. or_first (p o)) os (or_first q x) ≡ first_or x (cons_some q (picks p os))
  or_first-first_or none os x h ih k = ih k
  or_first-first_or (some y) os x h ih k = rw (h) (fold_items-or_first_set os y k.0)

  pub fold_items-or_first :
      (os : List A) (x : ℤ)
      → is_zero x ≡ true
      → All NonZero (picks p os)
      → fold_items (λ o. or_first (p o)) os x ≡ first_or x (picks p os)
  fold_items-or_first [] x h hs = refl
  fold_items-or_first (o ∷ os) x h hs =
      or_first-first_or (p o) os x h (fold_items-or_first os x h) hs

module _ {P : Platform} {C : Type 0} {A : Type 0} where
  -- A field that each call changes by `g` is folded from the calls.
  pub fold-after :
      (b : Bool) (get : Conn P C → A) (g : Call P → A → A)
      → ((o : Call P) (c : Conn P C) → get (after b o c) ≡ g o (get c))
      → (os : List (Call P)) (c : Conn P C) → get (after_all b os c) ≡ fold_items g os (get c)
  fold-after b get g h [] c = refl
  fold-after b get g h (o ∷ os) c =
      fold-after b get g h os (after b o c) ∙ ap (fold_items g os) (h o c)

module _ {P : Platform} {C : Type 0} where
  -- What a session ends in, where it returns.
  pub session-end :
      (r : Option (Callback P C))
      → Watches r
      → (ctx : C) (ncon : NetConn) (now : ℤ) (probe : Probe P) (os : List (Call P)) (w : World P C)
      → session r ctx ncon now probe os ≡ some w
      → free
          (finally (is_set r) ctx ncon now probe os)
          (all_reports (is_set r) ctx ncon now probe os)
        ≡ w
  session-end r h ctx ncon now probe os w e = let e' = session-free r h ctx ncon now probe os in cc

module _ {P : Platform} {C A : Type 0} (get : Conn P C → A) (g : Call P → A → A) where
  -- A field that each call changes by `g`, from its value in a fresh connection.
  pub session-field :
      ((b : Bool) (o : Call P) (c : Conn P C) → get (after b o c) ≡ g o (get c))
      → (r : Option (Callback P C)) → Watches r
      → (ctx : C) (ncon : NetConn) (now : ℤ) (probe : Probe P) (os : List (Call P)) (w : World P C)
      → session r ctx ncon now probe os ≡ some w
      → (x : A) → get (wrapped (is_set r) ctx ncon now probe) ≡ x
      → get w.conn ≡ fold_items g os x
  session-field step r h ctx ncon now probe os w e x z =
      let b = is_set r in
      sym (ap (λ w. get w.conn) (session-end r h ctx ncon now probe os w e))
      ∙ fold-after b get g (step b) os (wrapped b ctx ncon now probe)
      ∙ ap (fold_items g os) z
