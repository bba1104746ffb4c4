-- ===== src/MessageTable/Match.antt =====
-- CmmTagsMatch of src/msgmgr.cpp against the pointwise relation on tag lists.
use reconverse.Prelude.{
  ◌≡◌, refl, Bool, true, false, some, List, [], ◌∷◌, arith, ◌⊎◌, inl, inr, ◌↔◌, length,
  if◌then◌else◌,
}
use reconverse.Prelude.Int.{ℤ, eqb_ℤ→eq}
use reconverse.MessageTable.{wild_card, tag_matches, match_loop, tags_match}

-- One tag stands for the other: they are equal, or one of them is the wild card.
abbrev pub Agree : ℤ → ℤ → Type 0
Agree a b = (a ≡ b) ⊎ ((a ≡ wild_card) ⊎ (b ≡ wild_card))

-- Two lists of one length whose tags agree place by place.
abbrev pub AllAgree : List ℤ → List ℤ → Type 0
AllAgree [] [] = Unit {0}
AllAgree [] (b ∷ bs) = ⊥
AllAgree (a ∷ as') [] = ⊥
AllAgree (a ∷ as') (b ∷ bs) = Agree a b × AllAgree as' bs

tag_matches→Agree : (a b : ℤ) → tag_matches a b ≡ true → Agree a b
tag_matches→Agree a b h = ground (arith, eqb_ℤ→eq a b, eqb_ℤ→eq a wild_card, eqb_ℤ→eq b wild_card)

Agree→tag_matches : (a b : ℤ) → Agree a b → tag_matches a b ≡ true
Agree→tag_matches a b (inl e) = ground arith
Agree→tag_matches a b (inr (inl e)) = ground arith
Agree→tag_matches a b (inr (inr e)) = ground arith

loop→AllAgree :
    (xs ys : List ℤ) → length xs ≡ length ys → match_loop xs ys ≡ some true → AllAgree xs ys
unfolding match_loop
loop→AllAgree [] [] l h = tt
loop→AllAgree [] (y ∷ ys) l h = absurd (omega arith)
loop→AllAgree (x ∷ xs) [] l h = absurd (omega arith)
loop→AllAgree (x ∷ xs) (y ∷ ys) l h =
    (tag_matches→Agree x y (ground arith), loop→AllAgree xs ys (omega arith) (ground arith))

AllAgree→loop :
    (xs ys : List ℤ) → AllAgree xs ys → (length xs ≡ length ys) × (match_loop xs ys ≡ some true)
unfolding match_loop
AllAgree→loop [] [] h = (refl, refl)
AllAgree→loop [] (y ∷ ys) h = absurd h
AllAgree→loop (x ∷ xs) [] h = absurd h
AllAgree→loop (x ∷ xs) (y ∷ ys) h =
    ground (arith, AllAgree→loop xs ys h.1, Agree→tag_matches x y h.0)

loop-some : (xs ys : List ℤ) → length xs ≡ length ys → (b : Bool) × (match_loop xs ys ≡ some b)
unfolding match_loop
loop-some [] ys l = (true, refl)
loop-some (x ∷ xs) [] l = absurd (omega arith)
loop-some (x ∷ xs) (y ∷ ys) l =
    let r = loop-some xs ys (omega arith) in
    ((if tag_matches x y then r.0 else false), ground (arith, r.1))

-- CmmTagsMatch says yes exactly when the two lists have one length and their tags agree place by
-- place, each wild card agreeing with every tag.
pub tags_match_iff : (xs ys : List ℤ) → (tags_match xs ys ≡ true) ↔ AllAgree xs ys
unfolding tags_match
tags_match_iff xs ys = (
  (λ h. loop→AllAgree xs ys (ground arith) (ground (arith, loop-some xs ys))),
  (λ h. ground (arith, AllAgree→loop xs ys h)),
)
