-- ===== src/Replication/State/Laws.antt =====
-- What the state of a replication keeps true (link-replication/src/state.rs).
use radicle_link.Prelude.{
  ◌≡◌, refl, sym, ap, subst, ◌∙◌, ◌⊎◌, inl, inr, Option, none, some, List, [], ◌∷◌, ◌++◌, Result,
  ok, ◌>>=◌, map_err, ok-injective, >>=-eq-ok,
}
use radicle_link.Refs.Name.{Name}
use radicle_link.Tracking.Policy.{Oid}
use radicle_link.Replication.Names.{Texts, Rad, id, selv, signed_refs, ids}
use radicle_link.Replication.Refdb.{Update, Mem, find, update, update_one}
use radicle_link.Replication.Refdb.Laws.{effects, find-update}
use radicle_link.Replication.Wants.{FilteredRef}
use radicle_link.Replication.State.{
  Urn, FetchState, update_all, update_next, note_delegation, note_rad, note, note_all, Updates,
  Phase, Net, StepError, step_failed, advertised, laid_out, fetched, apply_updates, step,
  shim_found, shim_refname_to_id,
}

-- The refs in memory are what the recorded updates make of no refs.
abbrev pub IsCoherent : FetchState → Type 0
IsCoherent s = s.refs ≡ (update s.tips []).1

update-append_one :
    (ups : List Update) (up : Update) (mem : Mem)
    → (update (ups ++ up ∷ []) mem).1 ≡ (update (up ∷ []) (update ups mem).1).1
unfolding update
update-append_one [] up mem = refl
update-append_one (x ∷ ups) up mem = update-append_one ups up (update_one x mem).1

update_next-IsCoherent :
    (up : Update) (s : FetchState) → IsCoherent s → IsCoherent (update_next up s).1
update_next-IsCoherent up s h =
    ap (λ (mem : Mem). (update (up ∷ []) mem).1) h ∙ sym (update-append_one s.tips up [])

pub update_all-IsCoherent :
    (ups : List Update) (s : FetchState) → IsCoherent s → IsCoherent (update_all ups s).1
unfolding update_all
update_all-IsCoherent [] s h = h
update_all-IsCoherent (up ∷ ups) s h =
    update_all-IsCoherent ups (update_next up s).1 (update_next-IsCoherent up s h)

note_delegation-IsCoherent :
    (peer tip : Oid) (found : Option Urn) (s : FetchState)
    → IsCoherent s
    → IsCoherent (note_delegation peer tip found s)
note_delegation-IsCoherent peer tip none s h = h
note_delegation-IsCoherent peer tip (some urn) s h = h

module _ (u : Texts Urn) where
  note_rad-IsCoherent :
      (peer tip : Oid) (rad : Rad Name) (s : FetchState)
      → IsCoherent s
      → IsCoherent (note_rad u peer tip rad s)
  note_rad-IsCoherent peer tip id s h = h
  note_rad-IsCoherent peer tip selv s h = h
  note_rad-IsCoherent peer tip signed_refs s h = h
  note_rad-IsCoherent peer tip (ids name) s h =
      note_delegation-IsCoherent peer tip (u.try_from_id name) s h

  note_inner-IsCoherent :
      (tip remote : Oid) (inner : Rad Name ⊎ Name) (s : FetchState)
      → IsCoherent s
      → IsCoherent (note u (record { tip = tip; remote = remote; inner = inner }) s)
  note_inner-IsCoherent tip remote (inl rad) s h = note_rad-IsCoherent remote tip rad s h
  note_inner-IsCoherent tip remote (inr name) s h = h

  note_all-IsCoherent :
      (rs : List FilteredRef) (s : FetchState) → IsCoherent s → IsCoherent (note_all u rs s)
  unfolding note_all
  note_all-IsCoherent [] s h = h
  note_all-IsCoherent (r ∷ rs) s h =
      note_all-IsCoherent rs (note u r s) (note_inner-IsCoherent r.tip r.remote r.inner s h)

module _ {E : Type 0} (net : Net E) (phase : Phase E) (u : Texts Urn) where
  -- A step that succeeds keeps the state coherent: the refs in memory stay what all the updates recorded so
  -- far make of no refs.
  pub step-IsCoherent :
      (s s' : FetchState) → step net phase u s ≡ ok s' → IsCoherent s → IsCoherent s'
  unfolding step
  step-IsCoherent s s' h coherent =
      let finish : List FilteredRef → Updates → Result (StepError E) FetchState =
        λ rs up. ok (apply_updates net phase up (note_all u rs s)) in
      let prepared : List FilteredRef → Result (StepError E) FetchState =
        λ rs. map_err step_failed (phase.prepare (note_all u rs s) rs) >>= finish rs in
      let laid_then : List FilteredRef → Result (StepError E) FetchState = λ rs.
        laid_out net phase (phase.pre_validate rs) >>= λ laid.
        (fetched net phase (phase.wants_haves rs) >>= λ done. prepared rs) in
      let (reloaded, r, h0) =
        >>=-eq-ok (map_err step_failed net.reload)
          (λ reloaded. advertised net phase phase.ls_refs >>= laid_then) h in
      let (rs, a, h1) = >>=-eq-ok (advertised net phase phase.ls_refs) laid_then h0 in
      let (laid, b, h2) =
        >>=-eq-ok (laid_out net phase (phase.pre_validate rs))
          (λ laid. fetched net phase (phase.wants_haves rs) >>= λ done. prepared rs) h1 in
      let (done, c, h3) =
        >>=-eq-ok (fetched net phase (phase.wants_haves rs)) (λ done. prepared rs) h2 in
      let (up, d, h4) =
        >>=-eq-ok (map_err step_failed (phase.prepare (note_all u rs s) rs)) (finish rs) h3 in
      let noted = note_all u rs s in
      subst IsCoherent (ok-injective h4) (
        update_all-IsCoherent up.tips (record noted { trks = noted.trks ++ up.track })
          (note_all-IsCoherent u rs s coherent))

memory_first :
    {E : Type 0} (o : Option Oid) (inner : Result E (Option Oid))
    → shim_found o inner ≡ elim o [ none ↦ inner | some tip ↦ ok (some tip) ]
memory_first none inner = refl
memory_first (some tip) inner = refl

-- In a coherent state, a ref is found at the tip that the last recorded update of it set, whatever the
-- storage has; and as the storage has it, errors included, where no update set it or the last one pruned
-- it.
pub shim_refname_to_id_lem :
    {E : Type 0} (inner : Name → Result E (Option Oid)) (s : FetchState) (name : Name)
    → IsCoherent s
    → shim_refname_to_id inner s name
      ≡ elim (effects name s.tips none) [ none ↦ inner name | some tip ↦ ok (some tip) ]
unfolding shim_refname_to_id find
shim_refname_to_id_lem inner s name h =
    ap (λ (o : Option Oid). shim_found o (inner name))
      (ap (find name) h ∙ find-update name s.tips [])
    ∙ memory_first (effects name s.tips none) (inner name)
