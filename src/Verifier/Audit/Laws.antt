-- ===== src/Verifier/Audit/Laws.antt =====
-- How a step of the verifier that went on comes apart into its parts.
use chers.Base.{List, [], ◌++◌, ◌≡◌, refl, sym, subst, append-eq-nil, arith}
use chers.Verifier.Audit.{Finding, ok, raised, Audit, ◌>>=◌}

pub >>=-eq-ok {ℓ κ} :
    {A : Type ℓ} {B : Type κ} (m : Audit A) (f : A → Audit B) (b : B) (found : List Finding)
    → (m >>= f) ≡ (ok b, found)
    → (a : A) × (before : List Finding) × (rest : List Finding) × (m ≡ (ok a, before))
      × (f a ≡ (ok b, rest))
      × (found ≡ before ++ rest)
>>=-eq-ok (ok a, before) f b found e =
    (a, before, (f a).1, refl, (λ i. ((e i).0, (f a).1)), (λ i. (sym e i).1))
>>=-eq-ok (raised x, before) f b found e = ground arith

-- When a sequence goes on and has reported nothing, so have its parts.
pub >>=-eq-quiet {ℓ κ} :
    {A : Type ℓ} {B : Type κ} (m : Audit A) (f : A → Audit B) (b : B)
    → (m >>= f) ≡ (ok b, [])
    → (a : A) × (m ≡ (ok a, [])) × (f a ≡ (ok b, []))
>>=-eq-quiet m f b e =
    let (a, before, rest, first, second, joined) = >>=-eq-ok m f b [] e in
    let (none_before, none_rest) = append-eq-nil before rest (sym joined) in
    (a, subst (λ l. m ≡ (ok a, l)) none_before first, subst (λ l. f a ≡ (ok b, l)) none_rest second)
