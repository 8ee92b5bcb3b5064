-- ===== src/Outside.antt =====
-- What the program takes from outside: the JSON reader, the model server, the regular-expression
-- engine, the digest of a request and Python's parser. A value of `Outside` stands for one run's
-- answers.
use local_graph_rag.Prelude.{ℕ, Bool, Option, none, some, nat_eq, list_eq, ◌==◌, if◌then◌else◌}
use local_graph_rag.Prelude.Text.{Str}
use local_graph_rag.Ingest.PythonCode.{Parsed}

-- A decoded JSON value.
mutual
  pub data Json : Type 0 where
    null : Json
    bool : Bool → Json
    num : ℕ → Json
    str : Str → Json
    arr : Items → Json
    obj : Fields → Json

  pub data Items : Type 0 where
    nil : Items
    cons : Json → Items → Items

  pub data Fields : Type 0 where
    end : Fields
    field : Str → Json → Fields → Fields

-- data.get(key)
unfoldable pub get_field : Str → Fields → Option Json
get_field key end = none
get_field key (field k v fields) =
    let rest = get_field key fields in if k == key then some v else rest

pub record Outside : Type 0 where
  -- json.loads: none where it raises ValueError or RecursionError
  pub loads : Str → Option Json
  -- hashlib.sha256 of the request body for a prompt
  pub request_sha256 : Str → Str
  -- ollama_client.generate for a prompt: none where it raises
  pub generate : Str → Option Str
  -- whether a name stands in a text between word boundaries, ignoring case
  pub word_search : Str → Str → Bool
  -- ast.parse
  pub parse_python : Str → Parsed
