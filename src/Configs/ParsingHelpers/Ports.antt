-- ===== src/Configs/ParsingHelpers/Ports.antt =====
-- ParsePortList: which ports are read, and that a printed list is read again.
use aspenmesh_k3s_multiclust.Prelude.{
  ℕ, ◌<◌, String, ◌≡◌, ◌↔◌, refl, ap, ◌∙◌, inl, inr, true, Option, none, some, List, [], ◌∷◌, map,
  arith, all, Elem,
}
use aspenmesh_k3s_multiclust.Prelude.Results.{ok, parse_each, parse_each-ok, parse_each-Elem}
use aspenmesh_k3s_multiclust.Prelude.Integers.{ℤ, pos, negsuc}
use aspenmesh_k3s_multiclust.Prelude.Decimal.{
  parse_int, show_natural, parse_int-show_natural, parse_int-pos, show_natural-free,
}
use aspenmesh_k3s_multiclust.Prelude.Strings.{split, join}
use aspenmesh_k3s_multiclust.Prelude.Strings.Split.{is_free, split-join}
use aspenmesh_k3s_multiclust.Configs.ParsingHelpers.{
  ParsingLibrary, checked_port, parse_port, parse_port_list,
}

-- A port that fits a signed integer of 16 bits and is not zero.
abbrev pub IsParsed : ℕ → Type 0
IsParsed n = (0 < n) × (n < 32768)

module _ (lib : ParsingLibrary) where
  pub parse_port-show_natural : (n : ℕ) → IsParsed n → parse_port lib (show_natural n) ≡ ok (pos n)
  unfolding parse_port
  parse_port-show_natural n (positive, small) =
      ap (checked_port lib _) (parse_int-show_natural 15 n small) ∙ ground arith

  checked_port-ok :
      (s : String) (o : Option ℤ) (p : ℤ)
      → checked_port lib s o ≡ ok p
      → (n : ℕ) × (o ≡ some (pos n)) × (p ≡ pos n) × (0 < n)
  checked_port-ok s none p h = cc
  checked_port-ok s (some (pos n)) p h = ground arith
  checked_port-ok s (some (negsuc n)) p h = cc

  -- Whatever the text, a port that parsePort returns without an error is a number from 1 to 32767.
  pub parse_port-IsParsed :
      (s : String) (p : ℤ) → parse_port lib s ≡ ok p → (n : ℕ) × (p ≡ pos n) × IsParsed n
  unfolding parse_port
  parse_port-IsParsed s p h =
      let (n, read, same, positive) = checked_port-ok s (parse_int 15 s) p h in
      (n, same, (positive, parse_int-pos 15 n s read))

  pub parse_port_list-IsParsed :
      (s : String) (ports : List ℤ) (p : ℤ)
      → parse_port_list lib s ≡ ok ports
      → Elem p ports
      → (n : ℕ) × (p ≡ pos n) × IsParsed n
  unfolding parse_port_list
  parse_port_list-IsParsed s ports p h m =
      let (piece, read) = parse_each-Elem (parse_port lib) (split b',' s) ports p h m in
      parse_port-IsParsed piece p read

  parse_each-ports :
      (ns : List ℕ)
      → ((n : ℕ) → Elem n ns → IsParsed n)
      → parse_each (parse_port lib) (map show_natural ns) ≡ ok (map pos ns)
  parse_each-ports [] h = refl
  parse_each-ports (n ∷ ns) h =
      parse_each-ok (parse_port lib) _ _ (pos n) (map pos ns)
        (parse_port-show_natural n (h n (inl refl))) (parse_each-ports ns (λ m k. h m (inr k)))

  all-free : (ns : List ℕ) → all (is_free b',') (map show_natural ns) ≡ true
  all-free [] = refl
  all-free (n ∷ ns) = rw (show_natural-free b',' n (inl (omega arith))) (all-free ns)

  -- Ports from 1 to 32767, at least one, that are printed and joined with commas are read by
  -- ParsePortList as they were.
  pub parse_port_list-join :
      (n : ℕ) (ns : List ℕ)
      → ((m : ℕ) → Elem m (n ∷ ns) → IsParsed m)
      → parse_port_list lib (join "," (map show_natural (n ∷ ns))) ≡ ok (map pos (n ∷ ns))
  unfolding parse_port_list
  parse_port_list-join n ns h =
      ap (parse_each (parse_port lib)) (
        split-join b',' "," (show_natural n) (map show_natural ns) refl
          (show_natural-free b',' n (inl (omega arith))) (all-free ns))
      ∙ parse_each-ports (n ∷ ns) h

  -- ParsePort reads a printed natural number, as itself, exactly when it is one from 1 to 32767.
  pub parse_port-show_natural_lem :
      (n : ℕ) → (parse_port lib (show_natural n) ≡ ok (pos n)) ↔ IsParsed n
  parse_port-show_natural_lem n = (
    (λ h.
        let (m, same, parsed) = parse_port-IsParsed (show_natural n) (pos n) h in
        rw (pos_inj same) parsed),
    parse_port-show_natural n,
  )
    where
      pos_inj : {a b : ℕ} → pos a ≡ pos b → a ≡ b
      pos_inj h = cc
