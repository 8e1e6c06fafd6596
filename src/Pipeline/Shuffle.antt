-- ===== src/Pipeline/Shuffle.antt =====
-- Lists up to their order, as the workers of a stage shuffle them.
use mathlib.Core.List.{Perm, perm_append_comm}
use mathlib.Core.List.Perm
use mpmc_queue.Prelude.{◌≡◌, sym, ap, subst, ◌∙◌, List, ◌++◌, append_assoc}

swap_last : {A : Type 0} (a b c : List A) → Perm ((a ++ b) ++ c) ((a ++ c) ++ b)
swap_last a b c =
    subst (λ l. Perm l ((a ++ c) ++ b)) (sym (append_assoc a b c))
      (subst (λ l. Perm (a ++ (b ++ c)) l) (sym (append_assoc a c b))
        (Perm.append_left a (perm_append_comm b c)))

pub aside :
    {A : Type 0} (a a' b c c' : List A) → a' ++ c' ≡ a ++ c → Perm ((a' ++ b) ++ c') ((a ++ b) ++ c)
aside a a' b c c' e =
    Perm.trans (swap_last a' b c')
      (subst (λ l. Perm (l ++ b) ((a ++ b) ++ c)) (sym e) (swap_last a c b))

pub under :
    {A : Type 0} (a b b' c c' : List A)
    → Perm (b' ++ c') (b ++ c)
    → Perm ((a ++ b') ++ c') ((a ++ b) ++ c)
under a b b' c c' p =
    subst (λ l. Perm l ((a ++ b) ++ c)) (sym (append_assoc a b' c'))
      (subst (λ l. Perm (a ++ (b' ++ c')) l) (sym (append_assoc a b c)) (Perm.append_left a p))

pub regroup :
    {A : Type 0} (h done k k' taken l : List A)
    → Perm (k ++ done) (k' ++ taken)
    → Perm ((h ++ done) ++ (k ++ l)) (h ++ (k' ++ (taken ++ l)))
regroup h done k k' taken l p =
    subst (λ t. Perm t (h ++ (k' ++ (taken ++ l))))
      (ap (λ t. h ++ t) (append_assoc done k l) ∙ sym (append_assoc h done (k ++ l)))
      (subst (λ t. Perm (h ++ ((done ++ k) ++ l)) (h ++ t)) (append_assoc k' taken l)
        (Perm.append_left h (Perm.append_right l (Perm.trans (perm_append_comm done k) p))))
