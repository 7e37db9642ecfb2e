-- ===== src/Common/Logic.antt =====
-- Equivalences of statements, and of alternatives.
use mathlib.Core.Logic.{◌↔◌, ◌⊎◌, inl, inr}

pub ↔_trans : {A B C : Type 0} → A ↔ B → B ↔ C → A ↔ C
↔_trans f g = ((λ a. g.0 (f.0 a)), (λ c. f.1 (g.1 c)))

pub ⊎_congr_left : {A A' B : Type 0} → A ↔ A' → (A ⊎ B) ↔ (A' ⊎ B)
⊎_congr_left f =
    (elim [ inl a ↦ inl (f.0 a) | inr b ↦ inr b ], elim [ inl a ↦ inl (f.1 a) | inr b ↦ inr b ])

pub ⊎_congr_right : {A B B' : Type 0} → B ↔ B' → (A ⊎ B) ↔ (A ⊎ B')
⊎_congr_right f =
    (elim [ inl a ↦ inl a | inr b ↦ inr (f.0 b) ], elim [ inl a ↦ inl a | inr b ↦ inr (f.1 b) ])

pub ⊎_assoc : {A B C : Type 0} → ((A ⊎ B) ⊎ C) ↔ (A ⊎ B ⊎ C)
⊎_assoc = (
  elim [ inl (inl a) ↦ inl a | inl (inr b) ↦ inr (inl b) | inr c ↦ inr (inr c) ],
  elim [ inl a ↦ inl (inl a) | inr (inl b) ↦ inl (inr b) | inr (inr c) ↦ inr c ],
)
