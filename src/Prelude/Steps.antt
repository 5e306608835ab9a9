-- ===== src/Prelude/Steps.antt =====
-- What any number of steps reaches, and invariants of the steps.
pub data Reach {ℓ κ} {A : Type ℓ} (Step : A → A → Type κ) (s : A) : A → Type (ℓ ⊔ κ) where
  here : Reach Step s s
  next : {t u : A} → Reach Step s t → Step t u → Reach Step s u

pub Reach-preserves {ℓ κ μ} :
    {A : Type ℓ} (Step : A → A → Type κ) (Inv : A → Type μ)
    → ((s t : A) → Step s t → Inv s → Inv t)
    → {s t : A} → Reach Step s t
    → Inv s
    → Inv t
Reach-preserves Step Inv preserved here v = v
Reach-preserves Step Inv preserved (next r st) v =
    preserved _ _ st (Reach-preserves Step Inv preserved r v)
