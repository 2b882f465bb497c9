-- ===== src/Ring/Module.antt =====
-- Groups on which a ring acts, as the scalars of a curve act on its points.
use proof_of_custody.Prelude.{◌≡◌, sym, ap, ◌∙◌}
use proof_of_custody.Ring.{Ring, zero-mul}

pub record Additive {κ} (G : Type κ) : Type κ where
  pub zero : G
  pub add : G → G → G
  pub add_assoc : (p q s : G) → add (add p q) s ≡ add p (add q s)
  pub add_comm : (p q : G) → add p q ≡ add q p
  pub zero-add : (p : G) → add zero p ≡ p

module _ {κ} {G : Type κ} ⦃g : Additive G⦄ where
  infixl 65 ◌⊞◌
  abbrev pub ◌⊞◌ : G → G → G
  p ⊞ q = g.add p q

  pub add-zero : (p : G) → p ⊞ g.zero ≡ p
  add-zero p = g.add_comm p g.zero ∙ g.zero-add p

  pub add_interchange : (p q s t : G) → (p ⊞ q) ⊞ (s ⊞ t) ≡ (p ⊞ s) ⊞ (q ⊞ t)
  add_interchange p q s t =
      g.add_assoc p q (s ⊞ t)
      ∙ ap (λ x. p ⊞ x)
          (sym (g.add_assoc q s t) ∙ ap (λ x. x ⊞ t) (g.add_comm q s) ∙ g.add_assoc s q t)
      ∙ sym (g.add_assoc p s (q ⊞ t))

pub record Module {ℓ κ} (R : Type ℓ) ⦃r : Ring R⦄ (G : Type κ) ⦃g : Additive G⦄ : Type (ℓ ⊔ κ) where
  pub scale : G → R → G
  pub scale-add : (p : G) (a b : R) → scale p (r.add a b) ≡ g.add (scale p a) (scale p b)
  pub add-scale : (p q : G) (a : R) → scale (g.add p q) a ≡ g.add (scale p a) (scale q a)
  pub scale-mul : (p : G) (a b : R) → scale (scale p a) b ≡ scale p (r.mul a b)
  pub scale-zero : (p : G) → scale p r.zero ≡ g.zero
  pub scale-one : (p : G) → scale p r.one ≡ p

module _ {ℓ κ} {R : Type ℓ} ⦃r : Ring R⦄ {G : Type κ} ⦃g : Additive G⦄ ⦃m : Module R G⦄ where
  infixl 70 ◌⊡◌
  abbrev pub ◌⊡◌ : G → R → G
  p ⊡ a = m.scale p a

  pub zero-scale : (a : R) → g.zero ⊡ a ≡ g.zero
  zero-scale a =
      ap (λ p. p ⊡ a) (sym (m.scale-zero g.zero))
      ∙ m.scale-mul g.zero r.zero a
      ∙ ap (λ b. g.zero ⊡ b) (zero-mul a)
      ∙ m.scale-zero g.zero
