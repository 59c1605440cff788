-- ===== src/Object/Branches.antt =====
-- The branch pointers and the retention floor of crates/storage/src/object/mod.rs.
use bydesigns_db.Base.{ℕ, ◌+◌, ltb, not, List, ◌++◌}
use bydesigns_db.Base.Bytes.{to_le}
use bydesigns_db.Base.Assoc.{get, insert, remove}
use bydesigns_db.Types.{not_found, invalid, BranchRef, branch_root}
use bydesigns_db.Local.Ops.{has_children, is_some, sort_branches}
use bydesigns_db.Object.Client.{retention, branch_ptr, overlay_of, ObjectStore}
use bydesigns_db.Object.State.{
  Action, pure, or_fail, ◌>>=◌, ◌>>◌, state, set_state, fail_if, call, obj_put, obj_delete,
  obj_list,
}
use bydesigns_db.Object.Layers.{delete_all}

module _ {S : Type 0} (store : ObjectStore S) where
  unfoldable pub create_branch : ℕ → Action S ℕ
  create_branch base_lsn = do
    g ← state
    fail_if (ltb base_lsn g.retention_floor) not_found
    put ← call store (
        store.put_if_absent (branch_ptr g.next_branch_id)
          (to_le 8 g.next_branch_id ++ (to_le 8 base_lsn ++ to_le 8 branch_root)))
    set_state (record g {
      next_branch_id = g.next_branch_id + 1;
      branches = insert g.branches g.next_branch_id (record {
        id = g.next_branch_id;
        parent = branch_root;
        base_lsn = base_lsn;
        head_lsn = base_lsn;
      });
    })
    pure g.next_branch_id

  unfoldable pub resolve_branch : ℕ → Action S BranchRef
  resolve_branch id = do g ← state; or_fail (get g.branches id) not_found

  unfoldable pub list_branches : Action S (List BranchRef)
  unfolding sort_branches
  list_branches = do g ← state; pure (sort_branches g.branches)

  unfoldable pub delete_branch : ℕ → Action S (Unit {0})
  unfolding has_children is_some delete_all
  delete_branch id = do
    g ← state
    fail_if (not (is_some (get g.branches id))) not_found
    fail_if (has_children id g.branches) invalid
    obj_delete store (branch_ptr id)
    keys ← obj_list store (overlay_of id)
    delete_all store keys
    g1 ← state
    set_state (record g1 { branches = remove g1.branches id })

  unfoldable pub set_retention_floor : ℕ → Action S (Unit {0})
  set_retention_floor lsn = do
    g ← state
    fail_if (ltb lsn g.retention_floor) invalid
    put ← obj_put store retention (to_le 8 lsn)
    set_state (record g { retention_floor = lsn })
