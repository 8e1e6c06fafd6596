-- ===== src/Schedule/Order.antt =====
-- The order of positions in a list: by element, then by index.
use mpmc_queue.Prelude.{ℕ, ◌≤◌, ◌<◌, ◌≡◌, ◌⊎◌, Option, none, some, List, [], ◌∷◌, arith}
use mpmc_queue.Schedule.{Delivery, logged}

abbrev pub Position : Type 0
Position = ℕ × ℕ

abbrev pub Before : Position → Position → Type 0
Before (e, i) (f, j) = (e < f) ⊎ ((e ≡ f) × (i < j))

abbrev pub Upto : Position → Position → Type 0
Upto (e, i) (f, j) = (e < f) ⊎ ((e ≡ f) × (i ≤ j))

abbrev pub source_of : Delivery → Position
source_of d = (d.element, d.index)

abbrev pub AllBefore : Position → List Delivery → Type 0
AllBefore p [] = Unit {0}
AllBefore p (d ∷ ds) = Before (source_of d) p × AllBefore p ds

-- Every item of a list, newest first, comes from behind all older ones.
abbrev pub Descends : List Delivery → Type 0
Descends [] = Unit {0}
Descends (d ∷ ds) = AllBefore (source_of d) ds × Descends ds

pub Upto-refl : (p : Position) → Upto p p
Upto-refl (e, i) = ground arith

pub Before-Upto : (p q r : Position) → Before p q → Upto q r → Before p r
Before-Upto (e, i) (f, j) (g, k) a b = ground arith

pub AllBefore-Upto :
    (p q : Position) (ds : List Delivery) → Upto p q → AllBefore p ds → AllBefore q ds
AllBefore-Upto p q [] u a = tt
AllBefore-Upto p q (d ∷ ds) u (b, bs) =
    (Before-Upto (source_of d) p q b u, AllBefore-Upto p q ds u bs)

-- A step leads a frontier on; an item that it returns comes from the old one or from behind it, and
-- from before the new one.
abbrev pub Progress : Position → Option Delivery → Position → Type 0
Progress p none q = Upto p q
Progress p (some d) q = Upto p (source_of d) × Before (source_of d) q

pub Progress-logged :
    (p q : Position) (out : Option Delivery) (ds : List Delivery)
    → Progress p out q
    → AllBefore p ds
    → Descends ds
    → AllBefore q (logged out ds) × Descends (logged out ds)
Progress-logged p q none ds u a o = (AllBefore-Upto p q ds u a, o)
Progress-logged p q (some d) ds (u, b) a o =
    let bs = AllBefore-Upto p (source_of d) ds u a in
    ((b, AllBefore-Upto (source_of d) q ds (onward (source_of d) q b) bs), (bs, o))
  where
    onward : (r s : Position) → Before r s → Upto r s
    onward (e, i) (f, j) h = ground arith
