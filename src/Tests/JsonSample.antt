-- ===== src/Tests/JsonSample.antt =====
-- A printer and a reader for JSON objects, arrays and texts without escapes, as the `JSON.stringify` and
-- `JSON.parse` of the runs.
use connect_web.Prelude.{
  ℕ, zero, suc, true, false, [], ◌∷◌, ◌++◌, Option, none, some, ◌==◌, if◌then◌else◌, length, drop,
}
use connect_web.Text.{Text, codes}
use connect_web.ConnectError.{ok, err, error_object}
use connect_web.Json.{Json, str, arr, obj, Items, nil, item, Fields, end, entry}
use connect_web.Connect.JsonBytes.{JsonText}

abbrev quoted : Text → Text
quoted s = b'"' ∷ (s ++ (b'"' ∷ []))

unfoldable mutual
  pub print_json : Json → Text
  print_json (str s) = quoted s
  print_json (arr xs) = b'[' ∷ print_items xs
  print_json (obj fs) = b'{' ∷ print_fields fs
  print_json _ = codes "null"

  pub print_items : Items → Text
  print_items nil = b']' ∷ []
  print_items (item x nil) = print_json x ++ (b']' ∷ [])
  print_items (item x (item y ys)) = print_json x ++ (b',' ∷ print_items (item y ys))

  pub print_fields : Fields → Text
  print_fields end = b'}' ∷ []
  print_fields (entry k v end) = quoted k ++ (b':' ∷ (print_json v ++ (b'}' ∷ [])))
  print_fields (entry k v (entry j w fs)) =
      quoted k ++ (b':' ∷ (print_json v ++ (b',' ∷ print_fields (entry j w fs))))

-- a text up to its quotation mark, and what is behind
unfoldable pub read_text : Text → Option (Text × Text)
read_text [] = none
read_text (c ∷ cs) = elim (c == b'"') [
  | true ↦ some ([], cs)
  | false ↦ elim (read_text cs) [ none ↦ none | some (s, rest) ↦ some (c ∷ s, rest) ]
]

-- what stands at the front of a text, and what is behind, on fuel
unfoldable mutual
  unfolding read_text

  pub read_json : ℕ → Text → Option (Json × Text)
  read_json zero t = none
  read_json (suc n) [] = none
  read_json (suc n) (c ∷ cs) = elim (c == b'"') [
    | true ↦ elim (read_text cs) [ none ↦ none | some (s, rest) ↦ some (str s, rest) ]
    | false ↦ elim (c == b'[') [
      | true ↦ elim (read_items n cs) [ none ↦ none | some (xs, rest) ↦ some (arr xs, rest) ]
      | false ↦ elim (c == b'{') [
        | true ↦ elim (read_fields n cs) [ none ↦ none | some (fs, rest) ↦ some (obj fs, rest) ]
        | false ↦ none
      ]
    ]
  ]

  pub read_items : ℕ → Text → Option (Items × Text)
  read_items zero t = none
  read_items (suc n) [] = none
  read_items (suc n) (c ∷ cs) = elim (c == b']') [
    | true ↦ some (nil, cs)
    | false ↦ elim (read_json n (if c == b',' then cs else c ∷ cs)) [
      | none ↦ none
      | some (x, rest) ↦ elim (read_items n rest) [
        | none ↦ none
        | some (xs, more) ↦ some (item x xs, more)
      ]
    ]
  ]

  pub read_fields : ℕ → Text → Option (Fields × Text)
  read_fields zero t = none
  read_fields (suc n) [] = none
  read_fields (suc n) (c ∷ cs) = elim (c == b'}') [
    | true ↦ some (end, cs)
    | false ↦ elim (read_text (if c == b',' then drop 1 cs else cs)) [
      | none ↦ none
      | some (k, rest) ↦ elim (read_json n (drop 1 rest)) [
        | none ↦ none
        | some (v, more) ↦ elim (read_fields n more) [
          | none ↦ none
          | some (fs, last) ↦ some (entry k v fs, last)
        ]
      ]
    ]
  ]

abbrev pub json_text : JsonText
json_text = record {
  stringify = λ j. ok (print_json j);
  parse = λ t. elim (read_json (suc (length t)) t) [
    | none ↦ err (error_object (codes "SyntaxError") (codes "Unexpected token"))
    | some (j, rest) ↦ ok j
  ];
}
