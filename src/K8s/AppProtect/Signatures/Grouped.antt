-- ===== src/K8s/AppProtect/Signatures/Grouped.antt =====
-- detectDuplicateTags: what the groups by tag hold.
use aspenmesh_k3s_multiclust.Prelude.{
  String, ◌≡◌, refl, sym, ap, ◌∙◌, subst, ◌⊎◌, inl, inr, Bool, true, false, Option, none, some,
  List, [], ◌∷◌, ◌++◌, map, ◌==◌, eq_iff, eq_refl, arith, Elem, Distinct, Never, Bool-cases,
  some_inj, if◌then◌else◌, Elem-append, Elem-append_left, Elem-append_right, Elem-map,
}
use aspenmesh_k3s_multiclust.Prelude.Dict.{Dict, lookup, insert, keys, lookup-insert}
use aspenmesh_k3s_multiclust.Prelude.Uniqueness.{Distinct-append, map_append}
use aspenmesh_k3s_multiclust.Prelude.Uniform.{insert-Distinct, Elem-lookup}
use aspenmesh_k3s_multiclust.K8s.AppProtect.{failed_validation_error_msg, UserSigEx}
use aspenmesh_k3s_multiclust.K8s.AppProtect.Signatures.{
  Pointer, add_to_group, group_by_tag, tagged_groups,
}
use aspenmesh_k3s_multiclust.K8s.AppProtect.Signatures.Oldest.{key_of}

abbrev pub is_failed : UserSigEx → Bool
is_failed sig = sig.error_msg == failed_validation_error_msg

abbrev pub group_or_empty : Option (List Pointer) → List Pointer
group_or_empty none = []
group_or_empty (some group) = group

add_to_group_lem :
    (key : String) (sig : UserSigEx) (tmp : Dict (List Pointer))
    → add_to_group (key, sig) tmp ≡ (
        if is_failed sig
        then tmp
        else insert sig.tag (group_or_empty (lookup sig.tag tmp) ++ (key, sig) ∷ []) tmp)
unfolding add_to_group
add_to_group_lem key sig tmp = ground arith

-- The groups of the signatures in `start` that are not in `rest`.
pub record Grouped (start rest : List Pointer) (tmp : Dict (List Pointer)) : Type 0 where
  pub member :
      (tag : String) (group : List Pointer) (p : Pointer)
      → lookup tag tmp ≡ some group
      → Elem p group
      → Elem p start × (p.1.tag ≡ tag) × (Elem (key_of p) (map key_of rest) → Never {0})
  pub placed :
      (p : Pointer)
      → Elem p start
      → is_failed p.1 ≡ false
      → Elem p rest ⊎ ((group : List Pointer) × (lookup p.1.tag tmp ≡ some group) × Elem p group)
  pub apart :
      (tag : String) (group : List Pointer)
      → lookup tag tmp ≡ some group
      → Distinct (map key_of group)
  pub unique : Distinct (keys tmp)

Grouped-start : (start : List Pointer) → Grouped start start []
unfolding lookup
Grouped-start start = record {
  member = λ tag group p e m. cc;
  placed = λ p m ok. inl m;
  apart = λ tag group e. cc;
  unique = tt;
}

module _ (start : List Pointer) (p : Pointer) (rest : List Pointer) (tmp : Dict (List Pointer))
    (known : Elem p start) (once : Distinct (map key_of (p ∷ rest)))
    (g : Grouped start (p ∷ rest) tmp) where
  abbrev before : List Pointer
  before = group_or_empty (lookup p.1.tag tmp)

  abbrev after : Dict (List Pointer)
  after = insert p.1.tag (before ++ p ∷ []) tmp

  group_before :
      (o : Option (List Pointer)) (x : Pointer)
      → Elem x (group_or_empty o)
      → (group : List Pointer) × (o ≡ some group) × Elem x group
  group_before none x m = elim m [ ]
  group_before (some group) x m = (group, refl, m)

  IsMember : String → Pointer → Type 0
  IsMember tag x = Elem x start × (x.1.tag ≡ tag) × (Elem (key_of x) (map key_of rest) → Never {0})

  IsMember-before :
      (tag : String) (group : List Pointer) (x : Pointer)
      → lookup tag tmp ≡ some group
      → Elem x group
      → IsMember tag x
  unfolding IsMember
  IsMember-before tag group x e m =
      let (known_x, same, gone) = g.member tag group x e m in (known_x, same, λ n. gone (inr n))

  IsMember-new : (x : Pointer) → Elem x (before ++ p ∷ []) → IsMember p.1.tag x
  unfolding IsMember
  IsMember-new x m = elim (Elem-append x before (p ∷ []) m) [
    | inl n ↦
        let (group, e, k) = group_before (lookup p.1.tag tmp) x n in
        IsMember-before p.1.tag group x e k
    | inr (inl same) ↦ rw same (known, refl, once.0)
    | inr (inr n) ↦ elim n [ ]
  ]

  IsMember-after :
      (tag : String) (group : List Pointer) (x : Pointer)
      → lookup tag after ≡ some group
      → Elem x group
      → IsMember tag x
  IsMember-after tag group x e m = elim (Bool-cases (p.1.tag == tag)) [
    | inl t ↦
        let same = some_inj (sym (lookup-insert p.1.tag tag _ tmp ∙ rw t) ∙ e) in
        subst (λ k. IsMember k x) ((eq_iff p.1.tag tag).0 t)
          (IsMember-new x (subst (Elem x) (sym same) m))
    | inr t ↦ IsMember-before tag group x (sym (lookup-insert p.1.tag tag _ tmp ∙ rw t) ∙ e) m
  ]

  Placed : Dict (List Pointer) → Pointer → Type 0
  Placed groups x = (group : List Pointer) × (lookup x.1.tag groups ≡ some group) × Elem x group

  Placed-self : Placed after p
  unfolding Placed
  Placed-self =
      (before ++ p ∷ [], rw lookup-insert (rw eq_refl), Elem-append_right p before _ (inl refl))

  Placed-before : (x : Pointer) → Placed tmp x → Placed after x
  unfolding Placed
  Placed-before x (group, e, m) = elim (Bool-cases (p.1.tag == x.1.tag)) [
    | inl t ↦
        let at_p : lookup p.1.tag tmp ≡ some group = (rw ((eq_iff p.1.tag x.1.tag).0 t) e) in
        let held : Elem x before = (subst (λ o. Elem x (group_or_empty o)) (sym at_p) m) in
        (before ++ p ∷ [], rw lookup-insert (rw t), Elem-append_left x before _ held)
    | inr t ↦ (group, rw lookup-insert (rw t e), m)
  ]

  apart_new :
      (o : Option (List Pointer))
      → lookup p.1.tag tmp ≡ o
      → Distinct (map key_of (group_or_empty o ++ p ∷ []))
  apart_new none e = ((λ h. h), tt)
  apart_new (some group) e = rw (map_append key_of group (p ∷ [])) (
      Distinct-append _ _ (g.apart p.1.tag group e) ((λ h. h), tt)
        (λ k m n. elim n [
          | inl same ↦
              let (y, my, ey) = Elem-map key_of k group m in
              (g.member p.1.tag group y e my).2 (inl (sym ey ∙ same))
          | inr none_left ↦ none_left
        ]))

  apart_after :
      (tag : String) (group : List Pointer)
      → lookup tag after ≡ some group
      → Distinct (map key_of group)
  apart_after tag group e = elim (Bool-cases (p.1.tag == tag)) [
    | inl t ↦
        let same = some_inj (sym (lookup-insert p.1.tag tag _ tmp ∙ rw t) ∙ e) in
        subst (λ x. Distinct (map key_of x)) same (apart_new (lookup p.1.tag tmp) refl)
    | inr t ↦ g.apart tag group (sym (lookup-insert p.1.tag tag _ tmp ∙ rw t) ∙ e)
  ]

  Grouped-add : is_failed p.1 ≡ false → Grouped start rest after
  unfolding IsMember Placed
  Grouped-add h = record {
    member = IsMember-after;
    placed = λ x m ok. elim (g.placed x m ok) [
      | inl (inl same) ↦ inr (subst (Placed after) (sym same) Placed-self)
      | inl (inr n) ↦ inl n
      | inr found ↦ inr (Placed-before x found)
    ];
    apart = apart_after;
    unique = insert-Distinct p.1.tag _ tmp g.unique;
  }

  Grouped-skip : is_failed p.1 ≡ true → Grouped start rest tmp
  unfolding IsMember
  Grouped-skip h = record {
    member = IsMember-before;
    placed = λ x m ok. elim (g.placed x m ok) [
      | inl (inl same) ↦ cc (ap (λ (y : Pointer). is_failed y.1) same, ok, h)
      | inl (inr n) ↦ inl n
      | inr found ↦ inr found
    ];
    apart = g.apart;
    unique = g.unique;
  }

  Grouped-step : Grouped start rest (add_to_group p tmp)
  Grouped-step = elim (Bool-cases (is_failed p.1)) [
    | inl h ↦
        subst (Grouped start rest) (sym (add_to_group_lem p.0 p.1 tmp ∙ rw h)) (Grouped-skip h)
    | inr h ↦ subst (Grouped start rest) (sym (add_to_group_lem p.0 p.1 tmp ∙ rw h)) (Grouped-add h)
  ]

Grouped-all :
    (start rest : List Pointer) (tmp : Dict (List Pointer))
    → ((p : Pointer) → Elem p rest → Elem p start)
    → Distinct (map key_of rest)
    → Grouped start rest tmp
    → Grouped start [] (group_by_tag rest tmp)
unfolding group_by_tag
Grouped-all start [] tmp known once g = g
Grouped-all start (p ∷ rest) tmp known once g =
    Grouped-all start rest (add_to_group p tmp) (λ q m. known q (inr m)) once.1
      (Grouped-step start p rest tmp (known p (inl refl)) once g)

pub group_by_tag-Grouped :
    (sigs : List Pointer) → Distinct (map key_of sigs) → Grouped sigs [] (group_by_tag sigs [])
group_by_tag-Grouped sigs once = Grouped-all sigs sigs [] (λ p m. m) once (Grouped-start sigs)

-- The groups that are looked at are those of a tag that is given.
pub Elem-tagged_groups :
    (tmp : Dict (List Pointer)) (group : List Pointer)
    → Distinct (keys tmp)
    → Elem group (tagged_groups tmp)
    → (tag : String) × ((tag == "") ≡ false) × (lookup tag tmp ≡ some group)
unfolding tagged_groups
Elem-tagged_groups tmp group d m =
    let (tag, h, e) = entry tmp m in (tag, h, Elem-lookup tag group tmp d e)
  where
    entry :
        (m : Dict (List Pointer))
        → Elem group (tagged_groups m)
        → (tag : String) × ((tag == "") ≡ false) × Elem (tag, group) m
    entry [] h = elim h [ ]
    entry ((tag, g) ∷ m) h = elim (Bool-cases (tag == "")) [
      | inl t ↦ let (k, n, e) = entry m (rw t at h) in (k, n, inr e)
      | inr t ↦ elim (rw t at h) [
        | inl same ↦ (tag, t, inl (ap (λ (x : List Pointer). (tag, x)) same))
        | inr h ↦ let (k, n, e) = entry m h in (k, n, inr e)
      ]
    ]

pub tagged_groups-Elem :
    (tmp : Dict (List Pointer)) (tag : String) (group : List Pointer)
    → (tag == "") ≡ false
    → lookup tag tmp ≡ some group
    → Elem group (tagged_groups tmp)
unfolding tagged_groups lookup
tagged_groups-Elem [] tag group h e = cc
tagged_groups-Elem ((j, g) ∷ m) tag group h e = elim (Bool-cases (j == tag)) [
  | inl t ↦ rw (ap (λ x. x == "") ((eq_iff j tag).0 t) ∙ h) (inl (some_inj (sym (rw t at e))))
  | inr t ↦
      let rest = tagged_groups-Elem m tag group h (rw t at e) in
      elim (Bool-cases (j == "")) [ inl u ↦ rw u rest | inr u ↦ rw u (inr rest) ]
]
