-- ===== src/Scm/Inventory/Parts/Images.antt =====
-- scm/internal/service/inventory_service.go, `hydratePartImageUrls` and `hydratePartImageUrl`: reading
-- each catalog entry once, in the order of a Go map.
use zeus_be.Prelude.{
  ℕ, ◌==◌, String, Bool, true, false, ◌||◌, Bool-cases, inl, inr, Option, none, some, List, [], ◌∷◌,
  map, if◌then◌else◌, ok, pure, attempt, >>=-run, ◌≡◌, refl, sym, ap, ◌∙◌, arith,
}
use zeus_be.Scm.Inventory.{InventoryDeps, Part, PartCatalog, looked_up}
use zeus_be.Scm.Inventory.Parts.{
  with_image, url_entry, url_map, imaged, all_imaged, catalog_ids, distinct, without,
  hydrate_part_image_url, hydrate_part_image_urls,
}

abbrev pub has : ℕ → List ℕ → Bool
has i [] = false
has i (k ∷ ks) = k == i || has i ks

has-without : (i k : ℕ) (ks : List ℕ) → (k == i) ≡ false → has i (without k ks) ≡ has i ks
has-without i k [] h = refl
has-without i k (j ∷ js) h = ground (arith, h, has-without i k js h)

has-distinct : (i : ℕ) (ks : List ℕ) → has i ks ≡ true → has i (distinct ks) ≡ true
has-distinct i [] h = cc
has-distinct i (k ∷ ks) h = elim (Bool-cases (k == i)) [
  | inl same ↦ rw same
  | inr apart ↦
      let later : has i ks ≡ true = rw apart at h in
      rw (apart, has-without i k (distinct ks) apart) (has-distinct i ks later)
]

module _ {W R : Type 0} (D : InventoryDeps W R) where
  -- A table of the catalog: reading an entry gives what the table has for its id, or fails where it
  -- has nothing.
  pub record Catalog : Type 0 where
    pub catalog_of : ℕ → Option (Option PartCatalog)
    pub reads : (i : ℕ) (w : W) → (attempt (D.get_part_catalog_by_id i) w).0 ≡ ok (catalog_of i)

  -- A loop over a map meets every key.
  abbrev pub MeetsAll : Type 0
  MeetsAll = (keys : List ℕ) (i : ℕ) → has i keys ≡ true → has i (D.each keys) ≡ true

  module _ (T : Catalog) where
    abbrev pub with_own_image : Part → Part
    with_own_image part = with_image D (T.catalog_of part.part_catalog_id) part

    abbrev url_of : Option (Option PartCatalog) → Option (Option String)
    url_of (some (some catalog)) = some catalog.image_url
    url_of (some none) = none
    url_of none = none

    abbrev urls : List ℕ → List (ℕ × Option String)
    urls [] = []
    urls (id ∷ ids) = url_entry D id (T.catalog_of id) (urls ids)

    url_map-urls : (ids : List ℕ) (w : W) → (url_map D ids w).0 ≡ ok (urls ids)
    unfolding url_map
    url_map-urls [] w = refl
    url_map-urls (id ∷ ids) w =
        let read = attempt (D.get_part_catalog_by_id id) in
        ap (λ p. p.0) (>>=-run read _ w (T.catalog_of id) (T.reads id w))
        ∙ ap (λ p. p.0)
            (>>=-run (url_map D ids) (λ us. pure (url_entry D id (T.catalog_of id) us)) (read w).1
              (urls ids) (url_map-urls ids (read w).1))

    looked_up-entry :
        (i k : ℕ) (o : Option (Option PartCatalog)) (us : List (ℕ × Option String)) (b : Bool)
        → T.catalog_of k ≡ o
        → looked_up i us ≡ (if b then url_of (T.catalog_of i) else none)
        → looked_up i (url_entry D k o us)
          ≡ (if (k == i) || b then url_of (T.catalog_of i) else none)
    looked_up-entry i k o us b e h = elim (Bool-cases (k == i)) [
      | inl same ↦ at_key o b e h same (ground (arith, same))
      | inr apart ↦ past o apart
    ]
      where
        at_key :
            (o : Option (Option PartCatalog)) (b : Bool)
            → T.catalog_of k ≡ o
            → looked_up i us ≡ (if b then url_of (T.catalog_of i) else none)
            → (k == i) ≡ true
            → k ≡ i
            → looked_up i (url_entry D k o us)
              ≡ (if (k == i) || b then url_of (T.catalog_of i) else none)
        at_key (some (some catalog)) b e h same one =
            let at_i = ap T.catalog_of (sym one) ∙ e in rw (same, at_i)
        at_key (some none) true e h same one =
            let at_i = ap T.catalog_of (sym one) ∙ e in rw (same, h)
        at_key (some none) false e h same one =
            let at_i = ap T.catalog_of (sym one) ∙ e in rw (same, h, at_i)
        at_key none true e h same one = rw (same, h)
        at_key none false e h same one =
            let at_i = ap T.catalog_of (sym one) ∙ e in rw (same, h, at_i)

        past :
            (o : Option (Option PartCatalog))
            → (k == i) ≡ false
            → looked_up i (url_entry D k o us)
              ≡ (if (k == i) || b then url_of (T.catalog_of i) else none)
        past (some (some catalog)) apart = rw apart h
        past (some none) apart = rw apart h
        past none apart = rw apart h

    looked_up-urls :
        (i : ℕ) (ids : List ℕ)
        → looked_up i (urls ids) ≡ (if has i ids then url_of (T.catalog_of i) else none)
    looked_up-urls i [] = refl
    looked_up-urls i (k ∷ ks) =
        looked_up-entry i k (T.catalog_of k) (urls ks) (has i ks) refl (looked_up-urls i ks)

    imaged-url_of :
        (o : Option (Option PartCatalog)) (part : Part)
        → imaged D (url_of o) part ≡ with_image D o part
    imaged-url_of (some (some catalog)) part = refl
    imaged-url_of (some none) part = refl
    imaged-url_of none part = refl

    all_imaged-map :
        (ids : List ℕ) (parts : List Part)
        → ((i : ℕ) → has i (catalog_ids D parts) ≡ true → has i ids ≡ true)
        → all_imaged D (urls ids) parts ≡ map with_own_image parts
    all_imaged-map ids [] covers = refl
    all_imaged-map ids (part ∷ parts) covers =
        let id = part.part_catalog_id in
        let own : has id ids ≡ true = covers id (ground (arith)) in
        let here : looked_up id (urls ids) ≡ url_of (T.catalog_of id) =
          looked_up-urls id ids ∙ rw own in
        let head = ap (λ o. imaged D o part) here ∙ imaged-url_of (T.catalog_of id) part in
        let tail = all_imaged-map ids parts (λ i h. covers i (ground (arith, h))) in cc

    -- Where reading a catalog entry always gives what a table has for its id, and a loop over a map
    -- meets every key: the pictures of a list of parts, which are read once for each catalog entry
    -- in whatever order, are those that each part gets when it is read alone.
    pub hydrate_part_image_urls-alone :
        MeetsAll
        → (parts : List Part) (w : W)
        → ((part : Part) (v : W) → (hydrate_part_image_url D part v).0 ≡ ok (with_own_image part))
          × ((hydrate_part_image_urls D parts w).0 ≡ ok (map with_own_image parts))
    unfolding hydrate_part_image_url hydrate_part_image_urls
    hydrate_part_image_urls-alone meets parts w = (
      λ part v.
          ap (λ p. p.0)
            (>>=-run (attempt (D.get_part_catalog_by_id part.part_catalog_id)) _ v _
              (T.reads part.part_catalog_id v)),
      batch parts,
    )
      where
        batch : (ps : List Part) → (hydrate_part_image_urls D ps w).0 ≡ ok (map with_own_image ps)
        batch [] = refl
        batch (part ∷ ps) =
            let keys = distinct (catalog_ids D (part ∷ ps)) in
            ap (λ p. p.0)
              (>>=-run (url_map D (D.each keys)) _ w (urls (D.each keys))
                (url_map-urls (D.each keys) w))
            ∙ ap ok (
                all_imaged-map (D.each keys) (part ∷ ps)
                  (λ i h. meets keys i (has-distinct i (catalog_ids D (part ∷ ps)) h)))
