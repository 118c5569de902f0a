-- ===== src/Common/Equal.antt =====
-- Equality of texts, decided and proved.
use kaos_control.Common.{◌≡◌, ◌∙◌, refl, ap, true, ==_iff, [], ◌∷◌, Bytes, same_bytes, arith}

pub same_bytes-eq : (s t : Bytes) → same_bytes s t ≡ true → s ≡ t
unfolding same_bytes
same_bytes-eq [] [] h = refl
same_bytes-eq [] (d ∷ t) h = absurd (ground (arith, h))
same_bytes-eq (c ∷ s) [] h = absurd (ground (arith, h))
same_bytes-eq (c ∷ s) (d ∷ t) h =
    ap (λ x. x ∷ s) ((==_iff c d).0 (ground (arith, h)))
    ∙ ap (λ x. d ∷ x) (same_bytes-eq s t (ground (arith, h)))
