-- ===== src/Subtasks/Decomposition/Verbatim.antt =====
-- The invariant of src/subtasks/decomposition.ts: what a draft quotes is what the catalog holds.
use looping_core.Base.{
  trim, ℕ, zero, suc, ◌+◌, String, List, [], ◌∷◌, All, length, get_elem?, Option, none, some,
  Outcome, returned, threw, and_then, ◌≡◌, refl, sym, ap, ◌∙◌, subst, arith,
}
use looping_core.Subtasks.Types.{SubtaskReference, SubtaskParams, SubtaskDraft}
use looping_core.Subtasks.Decomposition.{
  SubtaskProposal, DecompositionProposal, ParamsFault, check_indexes, insert_index, sort_indexes,
  entry_at, copy_entry, copy_entries, resolve_references, subtask_label, draft_of, validated,
  resolve_subtask, resolve_subtasks, resolve_decomposition,
}
use looping_core.Round.Render.{ReferenceCatalogEntry}

-- A value that comes out of two calls comes out of each.
and_then-returned :
    {E A B : Type 0} (o : Outcome E A) (f : A → Outcome E B) (b : B)
    → and_then o f ≡ returned b
    → (a : A) × (o ≡ returned a) × (f a ≡ returned b)
and_then-returned (returned a) f b h = (a, refl, h)
and_then-returned (threw e) f b h = absurd (cc)

-- The role and the text of one entry of the catalog.
pub record IsQuote (catalog : List ReferenceCatalogEntry) (r : SubtaskReference) : Type 0 where
  pub index : ℕ
  pub entry : ReferenceCatalogEntry
  pub held : get_elem? catalog index ≡ some entry
  pub same_role : r.role ≡ entry.role
  pub same_text : r.text ≡ entry.text

abbrev pub Quotes : List ReferenceCatalogEntry → List SubtaskReference → Type 0
Quotes catalog = All (IsQuote catalog)

insert_index-length : (i : ℕ) (is : List ℕ) → length (insert_index i is) ≡ suc (length is)
unfolding insert_index
insert_index-length i [] = refl
insert_index-length i (j ∷ js) = let rest = insert_index-length i js in ground arith

sort_indexes-length : (is : List ℕ) → length (sort_indexes is) ≡ length is
unfolding sort_indexes
sort_indexes-length [] = refl
sort_indexes-length (i ∷ is) =
    omega (arith, insert_index-length i (sort_indexes is), sort_indexes-length is)

-- How many messages a proposal cites.
abbrev pub cited : Option (List ℕ) → ℕ
cited none = 0
cited (some is) = length is

module _ {E : Type 0} (catalog : List ReferenceCatalogEntry) where
  copy_entry-IsQuote :
      (i : ℕ) (r : SubtaskReference)
      → copy_entry {E = E} (entry_at catalog i) ≡ returned r
      → IsQuote catalog r
  unfolding copy_entry entry_at
  copy_entry-IsQuote zero r h = absurd (cc)
  copy_entry-IsQuote (suc i) r h = from (get_elem? catalog i) refl h
    where
      from :
          (o : Option ReferenceCatalogEntry)
          → get_elem? catalog i ≡ o
          → copy_entry {E = E} o ≡ returned r
          → IsQuote catalog r
      from none at h = absurd (cc)
      from (some e) at h =
          let same : ◌≡◌ {A = SubtaskReference} (record { role = e.role; text = e.text }) r = cc in
          record {
            index = i;
            entry = e;
            held = at;
            same_role = ap (λ x. x.role) (sym same);
            same_text = ap (λ x. x.text) (sym same);
          }

  copy_entries-Quotes :
      (is : List ℕ) (rs : List SubtaskReference)
      → copy_entries {E = E} catalog is ≡ returned rs
      → Quotes catalog rs × (length rs ≡ length is)
  unfolding copy_entries
  copy_entries-Quotes [] rs h =
      let empty : ◌≡◌ {A = List SubtaskReference} [] rs = cc in
      subst (λ xs. Quotes catalog xs × (length xs ≡ 0)) empty (tt, refl)
  copy_entries-Quotes (i ∷ is) rs h =
      let (r, one, rest) = and_then-returned (copy_entry (entry_at catalog i)) _ rs h in
      let (rs', more, all) = and_then-returned (copy_entries catalog is) _ rs rest in
      let same : r ∷ rs' ≡ rs = cc in
      let (quotes, count) = copy_entries-Quotes is rs' more in
      subst (λ xs. Quotes catalog xs × (length xs ≡ suc (length is))) same
        ((copy_entry-IsQuote i r one, quotes), omega arith)

  -- The references of a resolved subtask are quotes of the catalog, one for each index that the model
  -- gave.
  pub resolve_references-Quotes :
      (label : String) (indexes : Option (List ℕ)) (rs : List SubtaskReference)
      → resolve_references {E = E} label indexes catalog ≡ returned rs
      → Quotes catalog rs × (length rs ≡ cited indexes)
  unfolding resolve_references
  resolve_references-Quotes label none rs h =
      let empty : ◌≡◌ {A = List SubtaskReference} [] rs = cc in
      subst (λ xs. Quotes catalog xs × (length xs ≡ 0)) empty (tt, refl)
  resolve_references-Quotes label (some is) rs h =
      let (ok, checked, rest) =
        and_then-returned (check_indexes {E = E} label (length catalog) [] is) _ rs h in
      let (quotes, count) = copy_entries-Quotes (sort_indexes is) rs rest in
      (quotes, count ∙ sort_indexes-length is)

  module _
      (validate_params : String
        → Option SubtaskParams
        → Outcome (ParamsFault E) SubtaskParams) where
    resolve_subtask-Quotes :
        (index : ℕ) (p : SubtaskProposal) (d : SubtaskDraft)
        → resolve_subtask validate_params catalog index p ≡ returned d
        → Quotes catalog d.references
    unfolding resolve_subtask draft_of
    resolve_subtask-Quotes index p d h =
        let label = subtask_label index in
        let (params, a, h₁) =
          and_then-returned (validated label (validate_params (trim p.type) p.params))
            (λ params.
              and_then (resolve_references label p.reference_indexes catalog)
                λ references. returned (draft_of p params references))
            d h in
        let (references, b, h₂) =
          and_then-returned (resolve_references label p.reference_indexes catalog)
            (λ references. returned (draft_of p params references)) d h₁ in
        let same : draft_of p params references ≡ d = cc in
        let (quotes, count) = resolve_references-Quotes label p.reference_indexes references b in
        subst (λ x. Quotes catalog x.references) same quotes

    resolve_subtasks-Quotes :
        (index : ℕ) (ps : List SubtaskProposal) (ds : List SubtaskDraft)
        → resolve_subtasks validate_params catalog index ps ≡ returned ds
        → All (λ d. Quotes catalog d.references) ds × (length ds ≡ length ps)
    unfolding resolve_subtasks
    resolve_subtasks-Quotes index [] ds h =
        let empty : ◌≡◌ {A = List SubtaskDraft} [] ds = cc in
        subst (λ xs. All (λ d. Quotes catalog d.references) xs × (length xs ≡ 0)) empty (tt, refl)
    resolve_subtasks-Quotes index (p ∷ ps) ds h =
        let (d, one, h₁) =
          and_then-returned (resolve_subtask validate_params catalog index p)
            (λ d.
              and_then (resolve_subtasks validate_params catalog (index + 1) ps)
                λ ds'. returned (d ∷ ds'))
            ds h in
        let (ds', more, h₂) =
          and_then-returned (resolve_subtasks validate_params catalog (index + 1) ps)
            (λ ds'. returned (d ∷ ds')) ds h₁ in
        let same : d ∷ ds' ≡ ds = cc in
        let (quotes, count) = resolve_subtasks-Quotes (index + 1) ps ds' more in
        subst (λ xs. All (λ x. Quotes catalog x.references) xs × (length xs ≡ suc (length ps))) same
          ((resolve_subtask-Quotes index p d one, quotes), omega arith)

    -- A `delegate` call that resolves gives one draft for each subtask it names, and every reference of
    -- every draft is a quote of the catalog: its role and text are those of an entry.
    pub resolve_decomposition-Quotes :
        (p : DecompositionProposal) (reply : String) (ds : List SubtaskDraft)
        → resolve_decomposition validate_params catalog p ≡ returned (reply, ds)
        → All (λ d. Quotes catalog d.references) ds × (length ds ≡ length p.subtasks)
    unfolding resolve_decomposition
    resolve_decomposition-Quotes p reply ds h =
        let (ds', all, h₁) =
          and_then-returned (resolve_subtasks validate_params catalog 0 p.subtasks)
            (λ drafts. returned (trim p.reply, drafts)) (reply, ds) h in
        let same : ds' ≡ ds = cc in
        subst (λ xs. All (λ d. Quotes catalog d.references) xs × (length xs ≡ length p.subtasks))
          same (resolve_subtasks-Quotes 0 p.subtasks ds' all)
