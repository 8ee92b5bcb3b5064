-- ===== src/Ingest/PythonCode/Pieces.antt =====
-- The chunks of a Python file: how long they are, and which names they carry.
use local_graph_rag.Prelude.{
  ℕ, ◌+◌, ◌<◌, ◌≤◌, ◌≡◌, refl, Bool, true, false, Option, none, some, ◌⊎◌, inl, inr, List, [], ◌∷◌,
  map, length, All, All-append, All-mono, In, is_empty, max, ltb, arith, Bool-cases, if◌then◌else◌,
}
use local_graph_rag.Prelude.Text.{Str, splitlines}
use local_graph_rag.Settings.{Settings}
use local_graph_rag.Ingest.Chunkers.{chunk_text}
use local_graph_rag.Ingest.Chunkers.Recursion.{chunk_limit, chunk_text-IsBounded}
use local_graph_rag.Ingest.PythonCode.{
  Chunk, Node, tag_none, emit, node_segment, gap_before, nodes_from, Parsed, tree, refused,
  parse_raised, chunk_parsed, chunk_python,
}

module _ (cfg : Settings) where
  -- A chunk that is short enough, and that carries no name or the name of one of the nodes.
  abbrev pub IsTagged : List Node → Chunk → Type 0
  IsTagged body c =
      (length c.0 ≤ max cfg.max_chunk_chars (chunk_limit cfg))
      × ((c.1 ≡ none) ⊎ In c.1 (map (λ node. node.def_name) body))

  All-map :
      {A B : Type 0} (P : B → Type 0) (f : A → B) (xs : List A)
      → All (λ a. P (f a)) xs
      → All P (map f xs)
  All-map P f [] h = tt
  All-map P f (x ∷ xs) h = (h.0, All-map P f xs h.1)

  tagged :
      (body : List Node) (name : Option Str) (pieces : List Str)
      → ((name ≡ none) ⊎ In name (map (λ node. node.def_name) body))
      → All (λ p. length p ≤ max cfg.max_chunk_chars (chunk_limit cfg)) pieces
      → All (IsTagged body) (map (λ p. (p, name)) pieces)
  tagged body name pieces n h =
      All-map (IsTagged body) (λ p. (p, name)) pieces
        (All-mono _ _ (λ p (k : length p ≤ max cfg.max_chunk_chars (chunk_limit cfg)). (k, n))
          pieces h)

  text_pieces :
      (text : Str)
      → 0 < cfg.chunk_size
      → All (λ p. length p ≤ max cfg.max_chunk_chars (chunk_limit cfg)) (chunk_text cfg text)
  text_pieces text h =
      All-mono _ _ (λ p (k : length p ≤ chunk_limit cfg). omega arith) _
        (chunk_text-IsBounded cfg text h)

  emit-IsTagged :
      (body : List Node) (segment : Str) (name : Option Str)
      → 0 < cfg.chunk_size
      → ((name ≡ none) ⊎ In name (map (λ node. node.def_name) body))
      → All (IsTagged body) (emit cfg segment name)
  unfolding emit
  emit-IsTagged body [] name h n = tt
  emit-IsTagged body (c ∷ cs) name h n =
      elim (Bool-cases (ltb cfg.max_chunk_chars (length (c ∷ cs)))) [
        | inl long ↦ rw (long, All) (tagged body name _ n (text_pieces (c ∷ cs) h))
        | inr short ↦ rw (short, All) (tagged body name ((c ∷ cs) ∷ []) n (ground arith, tt))
      ]

  gap_before-IsTagged :
      (body : List Node) (lines : List Str) (prev_end : ℕ) (node : Node)
      → 0 < cfg.chunk_size
      → All (IsTagged body) (gap_before cfg lines prev_end node)
  unfolding gap_before
  gap_before-IsTagged body lines prev_end node h =
      elim (Bool-cases (ltb (prev_end + 1) node.lineno)) [
        | inl gap ↦ rw (gap, All) (emit-IsTagged body _ none h (inl refl))
        | inr adjacent ↦ rw (adjacent, All) tt
      ]

  nodes_from-IsTagged :
      (whole : List Node) (lines : List Str) (body : List Node) (prev_end : ℕ)
      → 0 < cfg.chunk_size
      → All (λ node. In node.def_name (map (λ n. n.def_name) whole)) body
      → All (IsTagged whole) (nodes_from cfg lines prev_end body)
  unfolding nodes_from
  nodes_from-IsTagged whole lines [] prev_end h a =
      elim (Bool-cases (ltb prev_end (length lines))) [
        | inl rest ↦ rw (rest, All) (emit-IsTagged whole _ none h (inl refl))
        | inr over ↦ rw (over, All) tt
      ]
  nodes_from-IsTagged whole lines (node ∷ body) prev_end h a =
      All-append (IsTagged whole) _ _ (gap_before-IsTagged whole lines prev_end node h) (
        All-append (IsTagged whole) _ _ (of_node node.is_import)
          (nodes_from-IsTagged whole lines body node.end_lineno h a.1))
    where
      of_node :
          (b : Bool)
          → All
              (IsTagged whole)
              (if b then [] else emit cfg (node_segment lines node) node.def_name)
      of_node true = tt
      of_node false = emit-IsTagged whole (node_segment lines node) node.def_name h (inr a.0)

  All-named :
      (whole body : List Node)
      → ((n : Option Str)
          → In n (map (λ node. node.def_name) body)
          → In n (map (λ node. node.def_name) whole))
      → All (λ (node : Node). In node.def_name (map (λ n. n.def_name) whole)) body
  All-named whole [] k = tt
  All-named whole (node ∷ body) k =
      (k node.def_name (inl refl), All-named whole body (λ n m. k n (inr m)))

  -- The nodes that the parser gives.
  abbrev pub nodes_of : Parsed → List Node
  nodes_of refused = []
  nodes_of parse_raised = []
  nodes_of (tree body) = body

  -- No chunks where the parser raises what is not caught, and tagged ones where it does not.
  abbrev pub IsChunked : Parsed → Option (List Chunk) → Type 0
  IsChunked parsed none = parsed ≡ parse_raised
  IsChunked parsed (some chunks) = All (IsTagged (nodes_of parsed)) chunks

  untagged :
      (body : List Node) (text : Str)
      → 0 < cfg.chunk_size
      → All (IsTagged body) (tag_none (chunk_text cfg text))
  unfolding tag_none
  untagged body text h = tagged body none _ (inl refl) (text_pieces text h)

  chunk_parsed-IsTagged :
      (text : Str) (parsed : Parsed)
      → 0 < cfg.chunk_size
      → IsChunked parsed (chunk_parsed cfg text parsed)
  unfolding chunk_parsed
  chunk_parsed-IsTagged text refused h = untagged [] text h
  chunk_parsed-IsTagged text parse_raised h = refl
  chunk_parsed-IsTagged text (tree body) h =
      elim (Bool-cases (is_empty (nodes_from cfg (splitlines true text) 0 body))) [
        | inl nothing ↦ rw (nothing, All) (untagged body text h)
        | inr chunks ↦
            rw (chunks, All) (nodes_from-IsTagged body _ body 0 h (All-named body body (λ n m. m)))
      ]

  -- If CHUNK_SIZE is positive, then whatever `ast.parse` gives, each chunk of a Python file is at most
  -- max(MAX_CHUNK_CHARS, CHUNK_SIZE + CHUNK_OVERLAP + 2) long, and carries no name or the name of
  -- a top-level node; chunk_python raises only where `ast.parse` raises what it does not catch.
  pub chunk_python-IsTagged :
      (parse : Str → Parsed) (text : Str)
      → 0 < cfg.chunk_size
      → IsChunked (parse text) (chunk_python parse cfg text)
  unfolding chunk_python
  chunk_python-IsTagged parse text h = chunk_parsed-IsTagged text (parse text) h
