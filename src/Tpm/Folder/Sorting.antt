-- ===== src/Tpm/Folder/Sorting.antt =====
-- The sort of the folder measurement in src/tpm.rs, and the order of paths it sorts by.
use tex_attestation_server.Prelude.{
  ◌≡◌, refl, sym, ap, ◌∙◌, Bool, true, false, List, [], ◌∷◌, ◌⊎◌, inl, inr, arith, Bool-cases,
}
use mathlib.Core.List.{Perm, Permᴰ}
use mathlib.Core.List.Permᴰ
use mathlib.Core.List
use mathlib.Core.Logic.{∥∥₁_elim}
use tex_attestation_server.Text.{Bytes, equal, equal_iff}
use tex_attestation_server.Tpm.Folder.{FilePath, bytes_le, path_le, insert, sort}

-- A test that decides a linear order.
pub record IsOrder {A : Type 0} (le : A → A → Bool) : Type 0 where
  pub total : (a b : A) → (le a b ≡ true) ⊎ (le b a ≡ true)
  pub transitive : (a b c : A) → le a b ≡ true → le b c ≡ true → le a c ≡ true
  pub antisym : (a b : A) → le a b ≡ true → le b a ≡ true → a ≡ b

module _ {A : Type 0} (le : A → A → Bool) where
  insert-before : (x y : A) (l : List A) → le x y ≡ true → insert le x (y ∷ l) ≡ x ∷ y ∷ l
  unfolding insert
  insert-before x y l h = rw (h, insert) refl

  insert-behind : (x y : A) (l : List A) → le x y ≡ false → insert le x (y ∷ l) ≡ y ∷ insert le x l
  unfolding insert
  insert-behind x y l h = rw (h, insert) refl

  module _ (order : IsOrder le) where
    not_both : (x y : A) {B : Type 0} → le x y ≡ false → le y x ≡ false → B
    not_both x y f g = elim (order.total x y) [ inl t ↦ cc (f, t) | inr t ↦ cc (g, t) ]

    -- Two elements in front of a list that neither of them is behind the head of.
    insert-front :
        (x y : A) (l : List A)
        → insert le y l ≡ y ∷ l
        → insert le x l ≡ x ∷ l
        → insert le x (y ∷ l) ≡ insert le y (x ∷ l)
    insert-front x y l ey ex = elim (Bool-cases (le x y)) [
      | inl t ↦ elim (Bool-cases (le y x)) [
        | inl s ↦ let e = order.antisym x y t s in λ i. insert le (e i) (sym e i ∷ l)
        | inr f ↦ insert-before x y l t ∙ ap (◌∷◌ x) (sym ey) ∙ sym (insert-behind y x l f)
      ]
      | inr f ↦ elim (Bool-cases (le y x)) [
        | inl t ↦ insert-behind x y l f ∙ ap (◌∷◌ y) ex ∙ sym (insert-before y x l t)
        | inr g ↦ not_both x y f g
      ]
    ]

    insert-between :
        (x y z : A) (l : List A)
        → le y z ≡ true
        → le x z ≡ false
        → insert le x (insert le y (z ∷ l)) ≡ insert le y (insert le x (z ∷ l))
    insert-between x y z l yz xz = elim (Bool-cases (le x y)) [
      | inl xy ↦ cc (order.transitive x y z xy yz, xz)
      | inr f ↦
          ap (insert le x) (insert-before y z l yz)
          ∙ insert-behind x y (z ∷ l) f
          ∙ ap (◌∷◌ y) (insert-behind x z l xz)
          ∙ sym (insert-before y z (insert le x l) yz)
          ∙ ap (insert le y) (sym (insert-behind x z l xz))
    ]

    insert_comm : (x y : A) (l : List A) → insert le x (insert le y l) ≡ insert le y (insert le x l)
    unfolding insert
    insert_comm x y [] = insert-front x y [] refl refl
    insert_comm x y (z ∷ l) = elim (Bool-cases (le x z)) [
      | inl t ↦ elim (Bool-cases (le y z)) [
        | inl s ↦
            let ex = insert-before x z l t in
            let ey = insert-before y z l s in
            ap (insert le x) ey ∙ insert-front x y (z ∷ l) ey ex ∙ ap (insert le y) (sym ex)
        | inr f ↦ sym (insert-between y x z l t f)
      ]
      | inr f ↦ elim (Bool-cases (le y z)) [
        | inl t ↦ insert-between x y z l t f
        | inr g ↦
            ap (insert le x) (insert-behind y z l g)
            ∙ insert-behind x z (insert le y l) f
            ∙ ap (◌∷◌ z) (insert_comm x y l)
            ∙ sym (insert-behind y z (insert le x l) g)
            ∙ ap (insert le y) (sym (insert-behind x z l f))
      ]
    ]

    sort-Permᴰ : {l l' : List A} → Permᴰ l l' → sort le l ≡ sort le l'
    unfolding sort
    sort-Permᴰ Permᴰ.nil = refl
    sort-Permᴰ (Permᴰ.cons e p) = λ i. insert le (e i) (sort-Permᴰ p i)
    sort-Permᴰ (Permᴰ.swap {a = x} {b = y} {l = l} e f) =
        insert_comm x y (sort le l) ∙ λ i. insert le (f i) (insert le (e i) (sort le l))
    sort-Permᴰ (Permᴰ.trans p q) = sort-Permᴰ p ∙ sort-Permᴰ q

    -- A sort forgets the order in which the elements come.
    pub sort-Perm : IsSet A → {l l' : List A} → Perm l l' → sort le l ≡ sort le l'
    sort-Perm set p = ∥∥₁_elim p (List.is_set set _ _) sort-Permᴰ

pub bytes_le-total : (s t : Bytes) → (bytes_le s t ≡ true) ⊎ (bytes_le t s ≡ true)
unfolding bytes_le
bytes_le-total [] t = inl refl
bytes_le-total (a ∷ s) [] = inr refl
bytes_le-total (a ∷ s) (b ∷ t) = ground (arith, bytes_le-total s t)

pub bytes_le_trans :
    (s t u : Bytes) → bytes_le s t ≡ true → bytes_le t u ≡ true → bytes_le s u ≡ true
unfolding bytes_le
bytes_le_trans [] t u h k = refl
bytes_le_trans (a ∷ s) [] u h k = cc h
bytes_le_trans (a ∷ s) (b ∷ t) [] h k = cc k
bytes_le_trans (a ∷ s) (b ∷ t) (c ∷ u) h k = ground (arith, bytes_le_trans s t u)

bytes_le-antisym : (s t : Bytes) → bytes_le s t ≡ true → bytes_le t s ≡ true → s ≡ t
unfolding bytes_le
bytes_le-antisym [] [] h k = refl
bytes_le-antisym [] (b ∷ t) h k = cc k
bytes_le-antisym (a ∷ s) [] h k = cc h
bytes_le-antisym (a ∷ s) (b ∷ t) h k = ground (arith, bytes_le-antisym s t)

equal_sym : (s t : Bytes) → equal s t ≡ equal t s
unfolding equal
equal_sym [] [] = refl
equal_sym [] (b ∷ t) = refl
equal_sym (a ∷ s) [] = refl
equal_sym (a ∷ s) (b ∷ t) = ground (arith, equal_sym s t)

-- Two components in front: the test on the first, or else on the rest.
path_le-same : (a b : Bytes) (p q : FilePath) → a ≡ b → path_le (a ∷ p) (b ∷ q) ≡ path_le p q
unfolding path_le
path_le-same a b p q e = rw ((equal_iff a b).1 e, path_le) refl

path_le-differ :
    (a b : Bytes) (p q : FilePath) → equal a b ≡ false → path_le (a ∷ p) (b ∷ q) ≡ bytes_le a b
unfolding path_le
path_le-differ a b p q e = rw (e, path_le) refl

path_le-total : (p q : FilePath) → (path_le p q ≡ true) ⊎ (path_le q p ≡ true)
unfolding path_le
path_le-total [] q = inl refl
path_le-total (a ∷ p) [] = inr refl
path_le-total (a ∷ p) (b ∷ q) = elim (Bool-cases (equal a b)) [
  | inl same ↦ rw (equal_sym b a, same, path_le) (path_le-total p q)
  | inr differ ↦ rw (equal_sym b a, differ, path_le) (bytes_le-total a b)
]

path_le-antisym : (p q : FilePath) → path_le p q ≡ true → path_le q p ≡ true → p ≡ q
unfolding path_le
path_le-antisym [] [] h k = refl
path_le-antisym [] (b ∷ q) h k = cc k
path_le-antisym (a ∷ p) [] h k = cc h
path_le-antisym (a ∷ p) (b ∷ q) h k = elim (Bool-cases (equal a b)) [
  | inl same ↦
      let e = (equal_iff a b).0 same in
      let rest =
        path_le-antisym p q (sym (path_le-same a b p q e) ∙ h)
          (sym (path_le-same b a q p (sym e)) ∙ k) in
      λ i. e i ∷ rest i
  | inr differ ↦
      let e =
        bytes_le-antisym a b (sym (path_le-differ a b p q differ) ∙ h)
          (sym (path_le-differ b a q p (equal_sym b a ∙ differ)) ∙ k) in
      cc ((equal_iff a b).1 e, differ)
]

between_differ :
    (a b c : Bytes)
    → bytes_le a b ≡ true
    → bytes_le b c ≡ true
    → equal a b ≡ false
    → equal a c ≡ false
between_differ a b c h k differ = elim (Bool-cases (equal a c)) [
  | inr f ↦ f
  | inl same ↦
      let e = (equal_iff a c).0 same in
      cc ((equal_iff a b).1 (bytes_le-antisym a b h (ap (bytes_le b) e ∙ k)), differ)
]

path_le_trans : (p q r : FilePath) → path_le p q ≡ true → path_le q r ≡ true → path_le p r ≡ true
unfolding path_le
path_le_trans [] q r h k = refl
path_le_trans (a ∷ p) [] r h k = cc h
path_le_trans (a ∷ p) (b ∷ q) [] h k = cc k
path_le_trans (a ∷ p) (b ∷ q) (c ∷ r) h k = elim (Bool-cases (equal a b)) [
  | inl same ↦
      let e = (equal_iff a b).0 same in
      let h' = sym (path_le-same a b p q e) ∙ h in
      elim (Bool-cases (equal b c)) [
        | inl same' ↦
            let k' = sym (path_le-same b c q r ((equal_iff b c).0 same')) ∙ k in
            path_le-same a c p r (e ∙ (equal_iff b c).0 same') ∙ path_le_trans p q r h' k'
        | inr differ ↦
            path_le-differ a c p r (ap (λ x. equal x c) e ∙ differ)
            ∙ ap (λ x. bytes_le x c) e
            ∙ sym (path_le-differ b c q r differ)
            ∙ k
      ]
  | inr differ ↦
      let h' = sym (path_le-differ a b p q differ) ∙ h in
      elim (Bool-cases (equal b c)) [
        | inl same ↦
            let e = (equal_iff b c).0 same in
            path_le-differ a c p r (ap (equal a) (sym e) ∙ differ) ∙ ap (bytes_le a) (sym e) ∙ h'
        | inr differ' ↦
            let k' = sym (path_le-differ b c q r differ') ∙ k in
            path_le-differ a c p r (between_differ a b c h' k' differ) ∙ bytes_le_trans a b c h' k'
      ]
]

pub path_le-IsOrder : IsOrder path_le
path_le-IsOrder = record {
  total = path_le-total;
  transitive = path_le_trans;
  antisym = path_le-antisym;
}
