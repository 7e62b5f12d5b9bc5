-- ===== src/Migration/Copy/Batches.antt =====
-- What copyRows of internal/core/migrate.go leaves in the target, whatever fails.
use mathlib.Core.List.{append_assoc, append-nil}
use openspace_os_core.Base.{
  ℕ, ◌+◌, ◌≡◌, refl, ◌∙◌, ap, sym, subst, true, false, not, List, [], ◌∷◌, ◌++◌, arith,
  if◌then◌else◌, ltb, leb, length, length-append, if_cases, if_of_true, if_of_false, String,
}
use openspace_os_core.Migration.Copy.{
  Table, CopyState, Copied, CopyDriver, is_new, rolled_back, exec_row, commit, end_copy, copy_from,
  copy_rows, start_state,
}

-- Inserting rows, of which a key that is there already is left.
abbrev pub add : String × List String → Table → Table
add (k, v) t = if is_new t k then t ++ ((k, v) ∷ []) else t

abbrev pub add_all : Table → Table → Table
add_all [] t = t
add_all (r ∷ rs) t = add_all rs (add r t)

add_all-append : (rs qs t : Table) → add_all (rs ++ qs) t ≡ add_all qs (add_all rs t)
add_all-append [] qs t = refl
add_all-append (r ∷ rs) qs t = add_all-append rs qs (add r t)

module _ (t : Table) where
  -- The rows `before` have been taken: `kept` of them are committed, and the others in the transaction.
  record Progress (before : Table) (s : CopyState) : Type 0 where
    kept : Table
    open_ : Table
    split : before ≡ kept ++ open_
    committed : s.target.committed ≡ add_all kept t
    working : s.target.working ≡ add_all before t
    in_tx : s.row_in_tx ≡ length open_
    counted : s.new_count + s.skipped ≡ length before
    grown : length s.target.working ≡ length t + s.new_count

  -- Some first rows are in the table; without a failure, all of them, and the counters are right.
  pub record IsCopied (rs : Table) (c : Copied) : Type 0 where
    pub kept : Table
    pub left : Table
    pub split : rs ≡ kept ++ left
    pub table : c.table ≡ add_all kept t
    pub complete :
        c.failed ≡ false
        → (left ≡ [])
          × (c.new_count + c.skipped ≡ length rs)
          × (length c.table ≡ length t + c.new_count)

  rolled_back-IsCopied :
      (before rest : Table) (s : CopyState)
      → Progress before s
      → IsCopied (before ++ rest) (rolled_back s)
  rolled_back-IsCopied before rest s p = record {
    kept = p.kept;
    left = p.open_ ++ rest;
    split = ap (λ l. l ++ rest) p.split ∙ append_assoc p.kept p.open_ rest;
    table = p.committed;
    complete = λ h. absurd (ground arith);
  }

  commit-Progress :
      (before : Table) (s : CopyState) → Progress before s → Progress before (commit s)
  commit-Progress before s p = record {
    kept = before;
    open_ = [];
    split = sym (append-nil before);
    committed = p.working;
    working = p.working;
    in_tx = refl;
    counted = p.counted;
    grown = p.grown;
  }

  exec_row-Progress :
      (r : String × List String) (before : Table) (s : CopyState)
      → Progress before s
      → Progress (before ++ (r ∷ [])) (exec_row r s)
  unfolding exec_row
  exec_row-Progress (k, v) before s p =
      if_cases (Progress (before ++ ((k, v) ∷ []))) (is_new s.target.working k)
        (λ new. record {
          kept = p.kept;
          open_ = p.open_ ++ ((k, v) ∷ []);
          split = longer;
          committed = p.committed;
          working =
              ap (λ l. l ++ ((k, v) ∷ [])) p.working
              ∙ (sym (if_of_true _ _ (subst (λ l. is_new l k ≡ true) p.working new)) ∙ sym added);
          in_tx = omega (arith, p.in_tx, length-append p.open_ ((k, v) ∷ []));
          counted = omega (arith, p.counted, length-append before ((k, v) ∷ []));
          grown = omega (arith, p.grown, length-append s.target.working ((k, v) ∷ []));
        })
        (λ old. record {
          kept = p.kept;
          open_ = p.open_ ++ ((k, v) ∷ []);
          split = longer;
          committed = p.committed;
          working =
              p.working
              ∙ (sym (if_of_false _ _ (subst (λ l. is_new l k ≡ false) p.working old)) ∙ sym added);
          in_tx = omega (arith, p.in_tx, length-append p.open_ ((k, v) ∷ []));
          counted = omega (arith, p.counted, length-append before ((k, v) ∷ []));
          grown = p.grown;
        })
    where
      longer : before ++ ((k, v) ∷ []) ≡ p.kept ++ (p.open_ ++ ((k, v) ∷ []))
      longer = ap (λ l. l ++ ((k, v) ∷ [])) p.split ∙ append_assoc p.kept p.open_ ((k, v) ∷ [])

      added : add_all (before ++ ((k, v) ∷ [])) t ≡ add (k, v) (add_all before t)
      added = add_all-append before ((k, v) ∷ []) t

  success :
      (before : Table) (s : CopyState) (e : s.target.committed ≡ s.target.working)
      → Progress before s
      → IsCopied before (record (rolled_back s) { failed = false })
  success before s e p = record {
    kept = before;
    left = [];
    split = sym (append-nil before);
    table = e ∙ p.working;
    complete = λ h. (refl, p.counted, ap length e ∙ p.grown);
  }

  module _ (driver : CopyDriver) (batch : ℕ) where
    end_copy-IsCopied :
        (before : Table) (s : CopyState)
        → Progress before s
        → IsCopied before (end_copy driver batch s)
    unfolding end_copy
    end_copy-IsCopied before s p =
        if_cases (IsCopied before) driver.broken (λ a. failing s p)
          (λ a.
            if_cases (IsCopied before) (ltb 0 s.row_in_tx)
              (λ b.
                if_cases (IsCopied before) driver.last_commit_ok
                  (λ c. success before (commit s) refl (commit-Progress before s p))
                  (λ c. failing s p))
              (λ b. success before s (settled (is_empty_of p.open_ (ground (arith, p.in_tx)))) p))
      where
        failing : (s : CopyState) → Progress before s → IsCopied before (rolled_back s)
        failing s p =
            subst (λ l. IsCopied l (rolled_back s)) (append-nil before)
              (rolled_back-IsCopied before [] s p)

        is_empty_of : (o : Table) → length o ≡ 0 → o ≡ []
        is_empty_of [] z = refl
        is_empty_of (r ∷ rs) z = absurd (omega arith)

        settled : p.open_ ≡ [] → s.target.committed ≡ s.target.working
        settled e =
            let all : before ≡ p.kept = p.split ∙ (ap (λ l. p.kept ++ l) e ∙ append-nil p.kept) in
            p.committed ∙ (ap (λ l. add_all l t) (sym all) ∙ sym p.working)

    copy_from-IsCopied :
        (i : ℕ) (before rest : Table) (s : CopyState)
        → Progress before s
        → IsCopied (before ++ rest) (copy_from driver batch i rest s)
    unfolding copy_from
    copy_from-IsCopied i before [] s p =
        subst (λ l. IsCopied l (end_copy driver batch s)) (sym (append-nil before))
          (end_copy-IsCopied before s p)
    copy_from-IsCopied i before (r ∷ rs) s p =
        let s' = exec_row r s in
        let all = before ++ (r ∷ rs) in
        let p' = exec_row-Progress r before s p in
        let p'' = commit-Progress (before ++ (r ∷ [])) s' p' in
        let shift = append_assoc before (r ∷ []) rs in
        let next =
          subst
            (λ l. IsCopied l (
              copy_from driver batch (i + 1) rs (if leb batch s'.row_in_tx then commit s' else s')))
            shift
            (copy_from-IsCopied (i + 1) (before ++ (r ∷ [])) rs
              (if leb batch s'.row_in_tx then commit s' else s')
              (if_cases (Progress (before ++ (r ∷ []))) (leb batch s'.row_in_tx) (λ a. p'')
                (λ a. p'))) in
        let undone =
          subst (λ l. IsCopied l (rolled_back s')) shift
            (rolled_back-IsCopied (before ++ (r ∷ [])) rs s' p') in
        let halted =
          subst (λ l. IsCopied l (rolled_back (commit s'))) shift
            (rolled_back-IsCopied (before ++ (r ∷ [])) rs (commit s') p'') in
        if_cases (IsCopied all) (not (driver.row_ok i))
          (λ a. rolled_back-IsCopied before (r ∷ rs) s p)
          (λ a.
            if_cases (IsCopied all) (not (leb batch s'.row_in_tx)) (λ b. next)
              (λ b.
                if_cases (IsCopied all) (not (driver.commit_ok i)) (λ c. undone)
                  (λ c.
                    if_cases (IsCopied all) (not (driver.reopen_ok i)) (λ d. halted) (λ d. next))))

-- However the driver behaves, the target keeps some first rows of the source and nothing else new: of
-- these a row whose key it has is left out. If the copy succeeds these are all the rows, each is counted
-- as new or as skipped, and the target has grown by the new ones.
pub copy_rows-IsCopied :
    (driver : CopyDriver) (batch : ℕ) (rs t : Table) → IsCopied t rs (copy_rows driver batch rs t)
unfolding copy_rows
copy_rows-IsCopied driver batch rs t =
    let start : Progress t [] (start_state t) = record {
      kept = [];
      open_ = [];
      split = refl;
      committed = refl;
      working = refl;
      in_tx = refl;
      counted = omega arith;
      grown = omega arith;
    } in
    if_cases (IsCopied t rs) driver.starts
      (λ a. copy_from-IsCopied t driver batch 0 [] rs (start_state t) start)
      (λ a. rolled_back-IsCopied t [] rs (start_state t) start)
