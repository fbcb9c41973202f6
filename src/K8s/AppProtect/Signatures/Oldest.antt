-- ===== src/K8s/AppProtect/Signatures/Oldest.antt =====
-- sort.Sort with appProtectUserSigSlice: the first of the sorted signatures is the oldest.
use aspenmesh_k3s_multiclust.Prelude.{
  String, ◌≡◌, sym, ap, ◌∙◌, subst, inl, inr, true, false, List, [], ◌∷◌, map, arith, Elem,
  Distinct, Never, Bool-cases, Elem-map, map-Elem,
}
use aspenmesh_k3s_multiclust.Prelude.Texts.{
  text_lt, text_lt_trans, text_lt_irrefl, text_lt_connected,
}
use aspenmesh_k3s_multiclust.K8s.AppProtect.{UserSigEx}
use aspenmesh_k3s_multiclust.K8s.AppProtect.Signatures.{Pointer, less, insert_sig, sort_sigs}

text_lt_asym : (s t : String) → text_lt s t ≡ true → text_lt t s ≡ false
text_lt_asym s t h = elim (Bool-cases (text_lt t s)) [
  | inl e ↦ cc (text_lt_trans s t s h e, text_lt_irrefl s)
  | inr e ↦ e
]

text_lt_weak : (s t u : String) → text_lt s t ≡ false → text_lt t u ≡ false → text_lt s u ≡ false
text_lt_weak s t u h k = elim (text_lt_connected s t h) [
  | inl e ↦ rw e k
  | inr ts ↦ elim (text_lt_connected t u k) [
    | inl e ↦ rw (← e) h
    | inr ut ↦ text_lt_asym u s (text_lt_trans u t s ut ts)
  ]
]

pub less_asym : (s t : UserSigEx) → less s t ≡ true → less t s ≡ false
unfolding less
less_asym s t h = ground (arith, text_lt_asym t.obj.uid s.obj.uid)

less_weak : (s t u : UserSigEx) → less s t ≡ false → less t u ≡ false → less s u ≡ false
unfolding less
less_weak s t u h k = ground (arith, text_lt_weak u.obj.uid t.obj.uid s.obj.uid)

pub Elem-insert_sig :
    (x p : Pointer) (ps : List Pointer) → Elem x (insert_sig p ps) → Elem x (p ∷ ps)
unfolding insert_sig
Elem-insert_sig x p [] h = h
Elem-insert_sig x p (q ∷ qs) h = ground (arith, Elem-insert_sig x p qs)

insert_sig-Elem : (x p : Pointer) (ps : List Pointer) → Elem x (p ∷ ps) → Elem x (insert_sig p ps)
unfolding insert_sig
insert_sig-Elem x p [] h = h
insert_sig-Elem x p (q ∷ qs) h = ground (arith, insert_sig-Elem x p qs)

pub Elem-sort_sigs : (x : Pointer) (ps : List Pointer) → Elem x (sort_sigs ps) → Elem x ps
unfolding sort_sigs
Elem-sort_sigs x [] h = h
Elem-sort_sigs x (p ∷ ps) h =
    ground (arith, Elem-insert_sig x p (sort_sigs ps), Elem-sort_sigs x ps)

pub sort_sigs-Elem : (x : Pointer) (ps : List Pointer) → Elem x ps → Elem x (sort_sigs ps)
unfolding sort_sigs
sort_sigs-Elem x [] h = h
sort_sigs-Elem x (p ∷ ps) h =
    ground (arith, insert_sig-Elem x p (sort_sigs ps), sort_sigs-Elem x ps)

abbrev pub key_of : Pointer → String
key_of p = p.0

insert_sig-Distinct :
    (p : Pointer) (ps : List Pointer)
    → Distinct (map key_of (p ∷ ps))
    → Distinct (map key_of (insert_sig p ps))
unfolding insert_sig
insert_sig-Distinct p [] d = d
insert_sig-Distinct p (q ∷ qs) d = elim (Bool-cases (less q.1 p.1)) [
  | inl e ↦ rw e (
    (λ h. apart (Elem-map key_of (key_of q) (insert_sig p qs) h)),
    insert_sig-Distinct p qs ((λ h. d.0 (inr h)), d.1.1),
  )
  | inr e ↦ rw e d
]
  where
    apart : (x : Pointer) × Elem x (insert_sig p qs) × (key_of q ≡ key_of x) → Never {0}
    apart (x, m, e) = elim (Elem-insert_sig x p qs m) [
      | inl same ↦ d.0 (inl (sym (e ∙ ap key_of same)))
      | inr n ↦ d.1.0 (subst (λ k. Elem k (map key_of qs)) (sym e) (map-Elem key_of x qs n))
    ]

pub sort_sigs-Distinct :
    (ps : List Pointer) → Distinct (map key_of ps) → Distinct (map key_of (sort_sigs ps))
unfolding sort_sigs
sort_sigs-Distinct [] d = tt
sort_sigs-Distinct (p ∷ ps) d = insert_sig-Distinct p (sort_sigs ps) (
  (λ h.
      let (x, m, e) = Elem-map key_of (key_of p) (sort_sigs ps) h in
      d.0 (
        subst (λ k. Elem k (map key_of ps)) (sym e)
          (map-Elem key_of x ps (Elem-sort_sigs x ps m)))),
  sort_sigs-Distinct ps d.1,
)

-- No signature of the list goes before the first one.
abbrev pub IsLed : List Pointer → Type 0
IsLed [] = Unit
IsLed (p ∷ ps) = (x : Pointer) → Elem x ps → less x.1 p.1 ≡ false

insert_sig-IsLed : (p : Pointer) (ps : List Pointer) → IsLed ps → IsLed (insert_sig p ps)
unfolding insert_sig
insert_sig-IsLed p [] h = λ x m. elim m [ ]
insert_sig-IsLed p (q ∷ qs) h = elim (Bool-cases (less q.1 p.1)) [
  | inl e ↦ rw e (λ x m. elim (Elem-insert_sig x p qs m) [
    | inl same ↦ rw same (less_asym q.1 p.1 e)
    | inr n ↦ h x n
  ])
  | inr e ↦ rw e (λ x m. elim m [ inl same ↦ rw same e | inr n ↦ less_weak x.1 q.1 p.1 (h x n) e ])
]

pub sort_sigs-IsLed : (ps : List Pointer) → IsLed (sort_sigs ps)
unfolding sort_sigs
sort_sigs-IsLed [] = tt
sort_sigs-IsLed (p ∷ ps) = insert_sig-IsLed p (sort_sigs ps) (sort_sigs-IsLed ps)
