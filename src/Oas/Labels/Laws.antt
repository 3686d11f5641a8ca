-- ===== src/Oas/Labels/Laws.antt =====
-- Where the labels go that are added through a context.
use flowhand.Base.{◌≡◌, refl, ◌∙◌, ℕ, ◌<◌, true, false, none, List, [], ◌++◌, arith}
use flowhand.Oas.Labels.{Heap, Context, add, labeler_from_context, context_with_labeler, store}

module _ {A : Type 0} where
  store_same : (l : ℕ) (attrs : List A) (cells : ℕ → List A) → store l attrs cells l ≡ attrs
  store_same l attrs cells = ground arith

  store_other :
      (l m : ℕ) (attrs : List A) (cells : ℕ → List A) → m < l → store l attrs cells m ≡ cells m
  store_other l m attrs cells before = ground arith

  -- What is added to the labeler that a context gives reaches the labeler that was put into it, after what
  -- it had, and is reported as found; without a labeler in the context what is added is reported as
  -- not found, and changes no labeler that there was.
  pub add-labeler_from_context :
      (ctx : Context) (l : ℕ) (attrs : List A) (h : Heap A)
      → (let ((m, found), h') = labeler_from_context (context_with_labeler ctx l) h in
          (found ≡ true) × ((add m attrs h').attrs l ≡ h.attrs l ++ attrs))
        × (let ((m, found), h') = labeler_from_context none h in
            (found ≡ false) × ((k : ℕ) → k < h.next → (add m attrs h').attrs k ≡ h.attrs k))
  unfolding add labeler_from_context
  add-labeler_from_context ctx l attrs h = (
    (refl, store_same l (h.attrs l ++ attrs) h.attrs),
    (
      refl,
      λ k before.
          store_other h.next k _ (store h.next [] h.attrs) before
          ∙ store_other h.next k [] h.attrs before,
    ),
  )
