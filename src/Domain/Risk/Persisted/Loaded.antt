-- ===== src/Domain/Risk/Persisted/Loaded.antt =====
-- Saving and loading the risk table (risk.py).
use cana_tune_llm.Base.{
  ℕ, ◌≡◌, refl, sym, ◌∙◌, ap, subst, Bool, true, false, not, ◌&&◌, Option, none, some, List, [],
  ◌∷◌, ◌==◌, arith, Compared, if_case,
}
use cana_tune_llm.Domain.Risk.{Cell, Buckets, RiskTable, find_cell}
use cana_tune_llm.Domain.Risk.Persisted.{
  Payload, Refusal, LoadResult, to_json, load, put_all, same_edges, same_buckets, schema_version,
}
use cana_tune_llm.Domain.Risk.Persisted.Merged.{
  IsDistinctCells, or_else, find_cell-put_all, find_cell-sort_by,
}

-- The table that was loaded has the same counts and visits for every cell.
pub record IsRestored (t : RiskTable) (r : LoadResult) : Type 0 where
  pub table : RiskTable
  pub result : r ≡ LoadResult.loaded table
  pub cells : (c : Cell) → find_cell c table.cells ≡ find_cell c t.cells
  pub visits : (c : Cell) → find_cell c table.visits ≡ find_cell c t.visits

or_else-none : {V : Type 0} (o : Option V) → or_else o none ≡ o
or_else-none none = refl
or_else-none (some x) = refl

or_else-empty :
    {V : Type 0} (c : Cell) (xs ys : List (Cell × V))
    → ys ≡ []
    → or_else (find_cell c xs) (find_cell c ys) ≡ find_cell c xs
unfolding find_cell
or_else-empty c xs ys e =
    ap (λ zs. or_else (find_cell c xs) (find_cell c zs)) e ∙ or_else-none (find_cell c xs)

same_edges_refl : (xs : List ℕ) → same_edges xs xs ≡ true
unfolding same_edges
same_edges_refl [] = refl
same_edges_refl (x ∷ xs) = ground (arith, same_edges_refl xs)

same_buckets_refl : (b : Buckets) → same_buckets b b ≡ true
unfolding same_buckets
same_buckets_refl b =
    let n = same_edges_refl b.n_await in let p = same_edges_refl b.prompt_tokens in ground arith

module _ {I : Type 0} (same : I → I → Bool) (identity : I) where
  -- The file belongs to this schema, configuration and buckets.
  abbrev pub fits : Payload I → RiskTable → Bool
  fits f t =
      f.version == schema_version && (same f.identity identity && same_buckets f.edges t.buckets)

  -- The table has what the file says, and its own counts where the file says nothing.
  pub record IsMerged (f : Payload I) (t t' : RiskTable) : Type 0 where
    pub fitting : fits f t ≡ true
    pub cells :
        (c : Cell) → find_cell c t'.cells ≡ or_else (find_cell c f.cells) (find_cell c t.cells)
    pub visits :
        (c : Cell) → find_cell c t'.visits ≡ or_else (find_cell c f.visits) (find_cell c t.visits)

  abbrev pub Answers : Payload I → RiskTable → LoadResult → Type 0
  Answers f t (LoadResult.refused why) = fits f t ≡ false
  Answers f t (LoadResult.loaded t') = IsMerged f t t'

  -- A file whose cells are distinct is refused unless its schema, its identity and its buckets are
  -- those of the table, and is merged into the table otherwise.
  pub load-Answers :
      (f : Payload I) (t : RiskTable)
      → IsDistinctCells f.cells
      → IsDistinctCells f.visits
      → Answers f t (load same identity f t)
  unfolding load
  load-Answers f t cells visits =
      let P = Answers f t in
      let merged : RiskTable = record t {
        cells = put_all f.cells t.cells;
        visits = put_all f.visits t.visits;
      } in
      if_case P (not (f.version == schema_version)) (LoadResult.refused Refusal.unsupported_schema)
        _ (λ e. ground arith)
        (λ version.
          if_case P (not (same f.identity identity))
            (LoadResult.refused Refusal.other_configuration) _ (λ e. ground arith)
            (λ own.
              if_case P (not (same_buckets f.edges t.buckets))
                (LoadResult.refused Refusal.other_buckets) (LoadResult.loaded merged)
                (λ e. ground arith)
                (λ edges. record {
                  fitting = ground arith;
                  cells = λ c. find_cell-put_all c f.cells t.cells cells;
                  visits = λ c. find_cell-put_all c f.visits t.visits visits;
                })))

  restored :
      (before : Cell → Cell → Compared) (t t0 : RiskTable) (r : LoadResult)
      → fits (to_json before identity t) t0 ≡ true
      → ((c : Cell) → find_cell c (to_json before identity t).cells ≡ find_cell c t.cells)
      → t0.cells ≡ []
      → t0.visits ≡ []
      → Answers (to_json before identity t) t0 r
      → IsRestored t r
  unfolding to_json
  restored before t t0 (LoadResult.refused why) ok kept no_cells no_visits a = ground arith
  restored before t t0 (LoadResult.loaded t') ok kept no_cells no_visits a = record {
    table = t';
    result = refl;
    cells = λ c. a.cells c ∙ (or_else-empty c _ t0.cells no_cells ∙ kept c);
    visits = λ c. a.visits c ∙ or_else-empty c t.visits t0.visits no_visits;
  }

  -- What `to_json` writes, `load` reads back into an empty table of the same buckets under the same
  -- identity, where no cell of the table stands twice and whatever the order of the keys.
  pub load-to_json :
      (before : Cell → Cell → Compared) (t t0 : RiskTable)
      → same identity identity ≡ true
      → t0.buckets ≡ t.buckets
      → t0.cells ≡ []
      → t0.visits ≡ []
      → IsDistinctCells t.cells
      → IsDistinctCells t.visits
      → IsRestored t (load same identity (to_json before identity t) t0)
  unfolding to_json
  load-to_json before t t0 own edges no_cells no_visits cells visits =
      let file = to_json before identity t in
      let (kept, sorted) = find_cell-sort_by (λ a b. before a.0 b.0) t.cells cells in
      let like : same_buckets t.buckets t0.buckets ≡ true =
        subst (λ b. same_buckets t.buckets b ≡ true) (sym edges) (same_buckets_refl t.buckets) in
      restored before t t0 (load same identity file t0) (ground arith) kept no_cells no_visits
        (load-Answers file t0 sorted visits)
