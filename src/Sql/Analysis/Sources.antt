-- ===== src/Sql/Analysis/Sources.antt =====
-- Where the tables of the catalog come from.
use zszc_sql_client.Base.{
  ◌≡◌, refl, ap, ◌∙◌, sym, subst, ◌⊎◌, inl, inr, Option, none, some, List, [], ◌∷◌, arith,
}
use zszc_sql_client.Sql.Text.{Text}
use zszc_sql_client.Sql.Maps.{TextMap, get, put, get-put_cases}
use zszc_sql_client.Sql.Analysis.{
  SqlAutocompleteTable, SqlAutocompleteSchema, CatalogTable, CatalogSchema, SqlCatalog, add_tables,
  add_schemas, build_sql_catalog, find_table, find_by_path, resolve_catalog_table, truthy,
}

-- A table of the catalog stands in the schemas that it was built from.
abbrev pub catalog_table : Text → SqlAutocompleteTable → CatalogTable
catalog_table database_name t = record {
  database_name = database_name;
  name = t.name;
  columns = t.columns;
}

abbrev pub InTables : Text → List SqlAutocompleteTable → CatalogTable → Type 0
InTables database_name [] found = ⊥
InTables database_name (t ∷ tables) found =
    (catalog_table database_name t ≡ found) ⊎ InTables database_name tables found

abbrev pub InSchemas : List SqlAutocompleteSchema → CatalogTable → Type 0
InSchemas [] found = ⊥
InSchemas (schema ∷ schemas) found =
    InTables schema.database_name schema.tables found ⊎ InSchemas schemas found

-- A table is that of its name in the schemas, upper and lower case taken together.
abbrev pub IsNamed : (Text → Text) → Text → CatalogTable → Type 0
IsNamed lower name found = lower found.name ≡ lower name

module _ (lower : Text → Text) where
  get-add_tables :
      (database_name key : Text) (tables : List SqlAutocompleteTable)
      (entries : TextMap CatalogTable) (found : CatalogTable)
      → get key (add_tables lower database_name tables entries) ≡ some found
      → (InTables database_name tables found × (lower found.name ≡ key))
        ⊎ (get key entries ≡ some found)
  unfolding add_tables
  get-add_tables database_name key [] entries found h = inr h
  get-add_tables database_name key (t ∷ tables) entries found h =
      let a = catalog_table database_name t in
      elim (get-add_tables database_name key tables (put (lower t.name) a entries) found h) [
        | inl (stands, name) ↦ inl (inr stands, name)
        | inr before ↦ elim (get-put_cases (lower t.name) key a found entries before) [
          | inl (name, same) ↦ inl (inl same, subst (λ f. lower f.name ≡ key) same name)
          | inr earlier ↦ inr earlier
        ]
      ]

  InTables-database :
      (database_name : Text) (tables : List SqlAutocompleteTable) (found : CatalogTable)
      → InTables database_name tables found
      → found.database_name ≡ database_name
  InTables-database database_name [] found m = absurd m
  InTables-database database_name (t ∷ tables) found (inl same) =
      ap (λ f. f.database_name) (sym same)
  InTables-database database_name (t ∷ tables) found (inr later) =
      InTables-database database_name tables found later

  -- What a schema of the catalog was made of.
  abbrev IsMadeOf : CatalogSchema → SqlAutocompleteSchema → Type 0
  IsMadeOf made schema =
      record {
        database_name = schema.database_name;
        tables = add_tables lower schema.database_name schema.tables [];
      }
      ≡ made

  abbrev IsMade : List SqlAutocompleteSchema → CatalogSchema → Type 0
  IsMade [] made = ⊥
  IsMade (schema ∷ schemas) made = IsMadeOf made schema ⊎ IsMade schemas made

  get-add_schemas :
      (key : Text) (schemas : List SqlAutocompleteSchema) (catalog : SqlCatalog)
      (made : CatalogSchema)
      → get key (add_schemas lower schemas catalog) ≡ some made
      → (IsMade schemas made × (lower made.database_name ≡ key)) ⊎ (get key catalog ≡ some made)
  unfolding add_schemas
  get-add_schemas key [] catalog made h = inr h
  get-add_schemas key (schema ∷ schemas) catalog made h =
      elim (get-add_schemas key schemas (put (lower schema.database_name) _ catalog) made h) [
        | inl (later, name) ↦ inl (inr later, name)
        | inr before ↦ elim (get-put_cases (lower schema.database_name) key _ made catalog before) [
          | inl (name, same) ↦
              inl (inl same, subst (λ (m : CatalogSchema). lower m.database_name ≡ key) same name)
          | inr earlier ↦ inr earlier
        ]
      ]

  made-InSchemas :
      (key : Text) (schemas : List SqlAutocompleteSchema) (made : CatalogSchema)
      (found : CatalogTable)
      → IsMade schemas made
      → get key made.tables ≡ some found
      → InSchemas schemas found
        × (lower found.name ≡ key)
        × (found.database_name ≡ made.database_name)
  made-InSchemas key [] made found m h = absurd m
  made-InSchemas key (schema ∷ schemas) made found (inr m) h =
      let (stands, name, database) = made-InSchemas key schemas made found m h in
      (inr stands, name, database)
  made-InSchemas key (schema ∷ schemas) made found (inl m) h =
      elim (get-add_tables schema.database_name key schema.tables [] found
        (subst (λ x. get key x.tables ≡ some found) (sym m) h)) [
          | inl (stands, name) ↦ (
            inl stands,
            name,
            InTables-database schema.database_name schema.tables found stands
                ∙ ap (λ (x : CatalogSchema). x.database_name) m,
          )
          | inr e ↦ absurd (ground arith)
        ]

  module _ (schemas : List SqlAutocompleteSchema) where
    abbrev pub catalog : SqlCatalog
    catalog = build_sql_catalog lower schemas

    -- What is found by the names of a database and a table is in the schemas and has those names.
    abbrev IsFoundAs : Text → Text → CatalogTable → Type 0
    IsFoundAs database_name name found =
        InSchemas schemas found
        × IsNamed lower name found
        × (lower found.database_name ≡ lower database_name)

    schema-IsFoundAs :
        (database_name name : Text) (found : CatalogTable) (o : Option CatalogSchema)
        → get (lower database_name) catalog ≡ o
        → elim o as (λ _. Option CatalogTable) [
          | none ↦ none
          | some schema ↦ get (lower name) schema.tables
        ]
          ≡ some found
        → IsFoundAs database_name name found
    unfolding build_sql_catalog
    schema-IsFoundAs database_name name found none e h = absurd (ground arith)
    schema-IsFoundAs database_name name found (some made) e h =
        elim (get-add_schemas (lower database_name) schemas [] made e) [
          | inl (m, named) ↦
              let (stands, name_eq, database) =
                made-InSchemas (lower name) schemas made found m h in
              (stands, name_eq, ap lower database ∙ named)
          | inr n ↦ absurd (ground arith)
        ]

    find_table-IsFoundAs :
        (database_name name : Text) (found : CatalogTable)
        → find_table lower catalog database_name name ≡ some found
        → IsFoundAs database_name name found
    find_table-IsFoundAs database_name name found h =
        schema-IsFoundAs database_name name found (get (lower database_name) catalog) refl h

    -- What is found by a path is found as its last name, in the database that the name before it gives, or,
    -- for a path of one name, in the current database.
    abbrev IsInCurrent : Option Text → Text → CatalogTable → Type 0
    IsInCurrent none name found = ⊥
    IsInCurrent (some database_name) name found = IsFoundAs database_name name found

    abbrev pub IsFoundAt : Option Text → List Text → CatalogTable → Type 0
    IsFoundAt current [] found = ⊥
    IsFoundAt current (name ∷ []) found = IsInCurrent current name found
    IsFoundAt current (a ∷ b ∷ []) found = IsFoundAs a b found
    IsFoundAt current (a ∷ b ∷ c ∷ names) found = IsFoundAt current (b ∷ c ∷ names) found

    find_by_path-IsFoundAt :
        (current : Option Text) (names : List Text) (found : CatalogTable)
        → find_by_path lower catalog names ≡ some found
        → IsFoundAt current names found
    unfolding find_by_path
    find_by_path-IsFoundAt current [] found h = absurd (ground arith)
    find_by_path-IsFoundAt current (a ∷ []) found h = absurd (ground arith)
    find_by_path-IsFoundAt current (a ∷ b ∷ []) found h = find_table-IsFoundAs a b found h
    find_by_path-IsFoundAt current (a ∷ b ∷ c ∷ names) found h =
        find_by_path-IsFoundAt current (b ∷ c ∷ names) found h

    named_table-IsInCurrent :
        (name : Text) (found : CatalogTable) (current : Option Text)
        → elim current as (λ _. Option CatalogTable) [
          | none ↦ none
          | some database_name ↦ find_table lower catalog database_name name
        ]
          ≡ some found
        → IsInCurrent current name found
    named_table-IsInCurrent name found none h = absurd (ground arith)
    named_table-IsInCurrent name found (some d) h = find_table-IsFoundAs d name found h

    pub resolve_catalog_table-IsFoundAt :
        (names : List Text) (current : Option Text) (found : CatalogTable)
        → resolve_catalog_table lower names catalog current ≡ some found
        → IsFoundAt (truthy current) names found
    unfolding resolve_catalog_table
    resolve_catalog_table-IsFoundAt [] current found h = absurd (ground arith)
    resolve_catalog_table-IsFoundAt (name ∷ []) current found h =
        named_table-IsInCurrent name found (truthy current) h
    resolve_catalog_table-IsFoundAt (a ∷ b ∷ names) current found h =
        find_by_path-IsFoundAt (truthy current) (a ∷ b ∷ names) found h
