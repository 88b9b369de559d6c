-- ===== src/TableDomain/Design/Tests.antt =====
-- A table of two columns, and its drafts.
use zszc_sql_client.Base.{
  ℕ, ◌≡◌, refl, String, Bool, true, false, Option, none, some, List, [], ◌∷◌, map, All, arith,
  eq_iff,
}
use zszc_sql_client.Base.Dict.{IsDict, lookup}
use zszc_sql_client.Types.Cells.{TableColumn}
use zszc_sql_client.Types.Tabs.{DesignDraftColumn}
use zszc_sql_client.TableDomain.Design.{delete_columns, restore_columns, add_column}
use zszc_sql_client.TableDomain.Design.Numbering.{
  AreNumbered, DesignStep, DesignReach, DesignReach-AreNumbered,
}
use zszc_sql_client.TableDomain.Design.Restoring.{
  AreDraftsOf, by_name, restore_every_draft, restore_columns-without_added, IsNamed,
}

abbrev column_of : String → ℕ → TableColumn
column_of name position = record {
  name = name;
  data_type = "int";
  full_data_type = "int";
  length = none;
  scale = none;
  nullable = false;
  primary_key = false;
  auto_increment = false;
  default_value = none;
  comment = "";
  ordinal_position = position;
}

abbrev originals : List TableColumn
originals = column_of "id" 1 ∷ column_of "age" 2 ∷ []

abbrev draft_of : Bool → TableColumn → Option String → DesignDraftColumn
draft_of selected column origin = record {
  column = column;
  client_id = "x";
  selected = selected;
  origin_name = origin;
}

abbrev drafts : List DesignDraftColumn
drafts =
    draft_of false (column_of "id" 1) (some "id")
    ∷ draft_of true (column_of "age" 2) (some "age")
    ∷ []

abbrev same : String → String
same s = s

abbrev no_digits : ℕ → String
no_digits n = ""

-- The selected column is deleted and a new one added.
later-DesignReach :
    DesignReach same no_digits originals drafts
      (add_column same no_digits "y" (delete_columns drafts))
later-DesignReach =
    DesignReach.steps (DesignReach.steps DesignReach.starts DesignStep.deletes)
      (DesignStep.adds "y")

DesignReach-AreNumbered_example :
    AreNumbered 0 (add_column same no_digits "y" (delete_columns drafts))
DesignReach-AreNumbered_example =
    DesignReach-AreNumbered same no_digits (refl, (refl, tt)) later-DesignReach

-- Both columns were renamed, and are selected.
abbrev renamed : List DesignDraftColumn
renamed =
    draft_of true (column_of "key" 1) (some "id")
    ∷ draft_of true (column_of "years" 2) (some "age")
    ∷ []

renamed-AreDraftsOf : AreDraftsOf originals renamed
renamed-AreDraftsOf =
    AreDraftsOf.draft (column_of "id" 1) (draft_of true (column_of "key" 1) (some "id")) refl (
      AreDraftsOf.draft (column_of "age" 2) (draft_of true (column_of "years" 2) (some "age")) refl
        AreDraftsOf.no_drafts)

originals-IsDict : IsDict (by_name originals)
unfolding lookup
originals-IsDict = (refl, (refl, tt))

originals-IsNamed : All IsNamed originals
originals-IsNamed =
    ((λ e. ground (arith, eq_iff "id" "")), ((λ e. ground (arith, eq_iff "age" "")), tt))

restore_every_draft_example : map (λ c. c.column) (restore_columns originals renamed) ≡ originals
restore_every_draft_example =
    restore_every_draft originals renamed renamed-AreDraftsOf (refl, (refl, tt)) originals-IsDict
      originals-IsNamed (refl, (refl, tt))

-- A column that was added, selected, before one of the table's.
abbrev mixed : List DesignDraftColumn
mixed =
    draft_of true (column_of "new" 1) none ∷ draft_of true (column_of "years" 2) (some "age") ∷ []

restore_columns-without_added_example :
    restore_columns originals mixed
    ≡ restore_columns originals (draft_of true (column_of "years" 2) (some "age") ∷ [])
restore_columns-without_added_example = restore_columns-without_added originals mixed

-- The only column of a table that is being created, selected.
abbrev added : List DesignDraftColumn
added = draft_of true (column_of "id" 1) none ∷ []

-- Deleting that column is refused.
delete_only : delete_columns added ≡ added
unfolding delete_columns
delete_only = refl
