-- ===== src/TableDomain/Remote/Requests/Serving.antt =====
-- A tab that waits has a request under way, and what remains once all are answered.
use zszc_sql_client.Base.{
  ◌≡◌, refl, sym, subst, Bool, true, false, List, [], ◌∷◌, ◌++◌, any, filter, All, All-map,
  All-append, All-imp, arith, eq_refl, Bool-cases, inl, inr,
}
use zszc_sql_client.Types.Tabs.{
  DataGridRow, DataTab, WorkspaceTab, profile_tab, design_tab, data_tab, console_tab,
  group_assignment_tab, tab_id,
}
use zszc_sql_client.Tabs.{
  TabsState, initial, is_tab, patch_one, patch_tab, upsert_tab, remove_tab, sync_tabs_ref,
}
use zszc_sql_client.Tabs.Laws.{patch_one_cases}
use zszc_sql_client.TableDomain.{on_data, with_rows}
use zszc_sql_client.TableDomain.Remote.{
  RemoteKind, Outcome, kind_of, begin, finish, begin_request, finish_request,
}
use zszc_sql_client.TableDomain.Remote.Requests.{
  Request, kind_of_tab, is_kind, is_loading, IsServed, RemoteState, RemoteStep, asks, answers,
  opens, opens_loading, edits, closes, renders, RemoteReach, start, later, AllServed, answer_all,
}
use zszc_sql_client.TableDomain.Remote.Requests.Updates.{
  IsUpdate, begin-IsUpdate, finish-IsUpdate, any-append_cons, patch-cases,
}

-- Sending a request makes no tab wait that its answer will not change.
begin-IsServed :
    (r : Request) (requests : List Request) (tab : WorkspaceTab)
    → IsServed (r ∷ requests) tab
    → IsServed (r ∷ requests) (patch_one r.tab (begin r.kind) tab)
begin-IsServed r requests tab h =
    elim (patch-cases r true (begin r.kind) (begin-IsUpdate r.kind) tab) [
      | inl (loads, s) ↦ rw s (ground arith)
      | inr (s, same) ↦ subst (IsServed (r ∷ requests)) (sym same) h
    ]

asked-IsServed :
    (r : Request) (requests : List Request) (tab : WorkspaceTab)
    → IsServed requests tab
    → IsServed (r ∷ requests) tab
asked-IsServed r requests tab h = ground arith

-- An answer to a request ends the waiting of its tab, and of no other.
finish-IsServed :
    (outcome : Outcome) (r : Request) (before after : List Request) (tab : WorkspaceTab)
    → kind_of outcome ≡ r.kind
    → IsServed (before ++ r ∷ after) tab
    → IsServed (before ++ after) (patch_one r.tab (finish outcome) tab)
finish-IsServed outcome r before after tab k h =
    let u : IsUpdate r.kind false (finish outcome) =
      subst (λ kind. IsUpdate kind false (finish outcome)) k (finish-IsUpdate outcome) in
    elim (patch-cases r false (finish outcome) u tab) [
      | inl (loads, s) ↦ rw loads refl
      | inr (s, same) ↦
          subst (IsServed (before ++ after)) (sym same)
            (ground (arith, any-append_cons tab before after r s))
    ]

begin_request-AllServed :
    (r : Request) (requests : List Request) (s : TabsState)
    → AllServed (r ∷ requests) s
    → AllServed (r ∷ requests) (begin_request r.kind r.tab s)
unfolding begin_request patch_tab
begin_request-AllServed r requests s h =
    All-map (IsServed (r ∷ requests)) (IsServed (r ∷ requests)) (patch_one r.tab (begin r.kind))
      (begin-IsServed r requests) s.tabs h

finish_request-AllServed :
    (outcome : Outcome) (r : Request) (before after : List Request) (s : TabsState)
    → kind_of outcome ≡ r.kind
    → AllServed (before ++ r ∷ after) s
    → AllServed (before ++ after) (finish_request outcome r.tab s)
unfolding finish_request patch_tab
finish_request-AllServed outcome r before after s k h =
    All-map (IsServed (before ++ r ∷ after)) (IsServed (before ++ after))
      (patch_one r.tab (finish outcome)) (λ tab. finish-IsServed outcome r before after tab k)
      s.tabs h

upsert-AllServed :
    (requests : List Request) (next : WorkspaceTab) (s : TabsState)
    → IsServed requests next
    → AllServed requests s
    → AllServed requests (upsert_tab next s)
unfolding upsert_tab
upsert-AllServed requests next s n h = elim (Bool-cases (any (is_tab (tab_id next)) s.tabs)) [
  | inl known ↦ rw known (
      All-map (IsServed requests) (IsServed requests) (patch_one (tab_id next) (λ _. next))
        (λ tab h'. patch_one_cases (IsServed requests) (tab_id next) (λ _. next) tab n h') s.tabs h)
  | inr fresh ↦ rw fresh (All-append (IsServed requests) s.tabs (next ∷ []) h (n, tt))
]

edited-IsServed :
    (requests : List Request) (f : DataTab → List DataGridRow → List DataGridRow)
    (tab : WorkspaceTab)
    → IsServed requests tab
    → IsServed requests (on_data (λ t. with_rows (f t) t) tab)
edited-IsServed requests f (data_tab t) h = h
edited-IsServed requests f (design_tab t) h = h
edited-IsServed requests f (console_tab t) h = h
edited-IsServed requests f (profile_tab t) h = h
edited-IsServed requests f (group_assignment_tab t) h = h

filter-AllServed :
    (requests : List Request) (p : WorkspaceTab → Bool) (tabs : List WorkspaceTab)
    → All (IsServed requests) tabs
    → All (IsServed requests) (filter p tabs)
filter-AllServed requests p [] h = tt
filter-AllServed requests p (tab ∷ tabs) h = elim (Bool-cases (p tab)) [
  | inl keep ↦ rw keep (h.0, filter-AllServed requests p tabs h.1)
  | inr drop ↦ rw drop (filter-AllServed requests p tabs h.1)
]

own-IsServed :
    (kind : RemoteKind) (requests : List Request) (tab : WorkspaceTab)
    → is_kind kind (kind_of_tab tab) ≡ true
    → IsServed (record { kind = kind; tab = tab_id tab } ∷ requests) tab
own-IsServed kind requests tab k = rw (k, eq_refl (tab_id tab)) (ground arith)

step-AllServed :
    {s t : RemoteState} → RemoteStep s t → AllServed s.requests s.tabs → AllServed t.requests t.tabs
step-AllServed {s} (asks r) h = begin_request-AllServed r s.requests s.tabs (
    All-imp (IsServed s.requests) (IsServed (r ∷ s.requests)) (asked-IsServed r s.requests)
      s.tabs.tabs h)
step-AllServed {s} (answers before after r outcome e k) h =
    finish_request-AllServed outcome r before after s.tabs k (rw e at h)
step-AllServed {s} (opens tab l) h = upsert-AllServed s.requests tab s.tabs (rw l refl) h
step-AllServed {s} (opens_loading tab kind k) h =
    let r : Request = record { kind = kind; tab = tab_id tab } in
    begin_request-AllServed r s.requests (upsert_tab tab s.tabs) (
      upsert-AllServed (r ∷ s.requests) tab s.tabs (own-IsServed kind s.requests tab k) (
        All-imp (IsServed s.requests) (IsServed (r ∷ s.requests)) (asked-IsServed r s.requests)
          s.tabs.tabs h))
step-AllServed {s} (edits id f) h =
    unfold patch_tab in
    All-map (IsServed s.requests) (IsServed s.requests) _
      (λ tab h'.
        patch_one_cases (IsServed s.requests) id (on_data λ t. with_rows (f t) t) tab
          (edited-IsServed s.requests f tab h') h')
      s.tabs.tabs h
step-AllServed {s} (closes id) h =
    unfold remove_tab sync_tabs_ref in filter-AllServed s.requests _ s.tabs.tabs h
step-AllServed {s} renders h = unfold sync_tabs_ref in h

-- In every state reached by asking, answering in any order, opening, editing and closing, a tab that
-- shows that it is loading has a request under way whose answer changes it.
pub RemoteReach-AllServed : {s : RemoteState} → RemoteReach s → AllServed s.requests s.tabs
RemoteReach-AllServed start = unfold initial in tt
RemoteReach-AllServed (later r st) = step-AllServed st (RemoteReach-AllServed r)

answered :
    (respond : Request → Outcome)
    → ((r : Request) → kind_of (respond r) ≡ r.kind)
    → (requests : List Request) (s : TabsState) → AllServed requests s
    → AllServed [] (answer_all respond requests s)
unfolding answer_all
answered respond k [] s h = h
answered respond k (r ∷ requests) s h =
    answered respond k requests (finish_request (respond r) r.tab s)
      (finish_request-AllServed (respond r) r [] requests s (k r) h)

served-quiet :
    (tabs : List WorkspaceTab) → All (IsServed []) tabs → All (λ tab. is_loading tab ≡ false) tabs
served-quiet [] h = tt
served-quiet (tab ∷ tabs) h = (ground arith, served-quiet tabs h.1)

-- From every such state, answering the requests under way one after another, newest first, each with an
-- answer or a failure of its kind, ends in a state with no request in which no tab is loading.
pub answer_all-quiet :
    (respond : Request → Outcome)
    → ((r : Request) → kind_of (respond r) ≡ r.kind)
    → {s : RemoteState} → RemoteReach s
    → All (λ tab. is_loading tab ≡ false) (answer_all respond s.requests s.tabs).tabs
answer_all-quiet respond k {s} r =
    served-quiet _ (answered respond k s.requests s.tabs (RemoteReach-AllServed r))
