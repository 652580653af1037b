-- ===== src/Polling/Causes.antt =====
-- What stands behind the outcome of a poll: the answer that a value was read from, or what went
-- wrong for the first pair that failed.
use argocd_autoscaler.Base.{
  ℕ, ◌<◌, ◌≡◌, refl, sym, subst, Option, none, some, List, [], ◌∷◌, ◌++◌, Pairwise, length, arith,
}
use argocd_autoscaler.Text.{Text}
use argocd_autoscaler.Arithmetic.{Arithmetic}
use argocd_autoscaler.Api.{Shard}
use argocd_autoscaler.LoadIndexing.{Metric}
use argocd_autoscaler.Polling.{
  PrometheusMetric, PollError, no_client, malformed_template, template_failed, query_failed,
  unexpected_type, had_no_data, not_one_sample, malformed_value, Polled, ok, err, ◌>>=◌, or_error,
  Answer, failure, other, vector, Prometheus, sample_value, metric_value, poll_one, poll,
}
use argocd_autoscaler.Polling.Pairs.{Pair, pairs, value_of, Gives, Accounts, poll-Accounts}

module _ (n : Arithmetic) (api : Prometheus n.Float) where
  -- The text of the query of a pair: its template parses and executes to it.
  abbrev pub IsQuery : Pair n api → Text → Type 0
  IsQuery (k, m, s) query =
      (t : api.Template) × (api.parse_template m.id m.query ≡ some t)
      × (api.execute t s ≡ some query)

  -- The number that an answer stands for: its only sample, or the value for no data.
  abbrev pub Stands : PrometheusMetric n.Quantity → Answer n.Float → n.Float → Type 0
  Stands m failure x = ⊥
  Stands m other x = ⊥
  Stands m (vector []) x = (q : n.Quantity) × (m.no_data ≡ some q) × (n.as_float q ≡ x)
  Stands m (vector (y ∷ [])) x = y ≡ x
  Stands m (vector (y ∷ z ∷ ys)) x = ⊥

  -- The value of a pair is read from the number that the answer to its query stands for.
  pub record IsPolled (k : ℕ) (m : PrometheusMetric n.Quantity) (s : Shard) (y : Metric n)
      : Type 0 where
    pub id : y.id ≡ m.id
    pub shard : y.shard ≡ s
    pub asked : IsQuery (k, m, s) y.query
    pub number : n.Float
    pub answered : Stands m (api.answer k y.query) number
    pub display : y.display_value ≡ n.format number
    pub read : n.parse y.display_value ≡ some y.value

  -- What an error says of a pair.
  abbrev pub Caused : Pair n api → PollError → Type 0
  Caused p no_client = ⊥
  Caused (k, m, s) malformed_template = api.parse_template m.id m.query ≡ none
  Caused (k, m, s) template_failed =
      (t : api.Template) × (api.parse_template m.id m.query ≡ some t) × (api.execute t s ≡ none)
  Caused p (query_failed query) = IsQuery p query × (api.answer p.0 query ≡ failure)
  Caused p (unexpected_type query) = IsQuery p query × (api.answer p.0 query ≡ other)
  Caused (k, m, s) (had_no_data query) =
      IsQuery (k, m, s) query × (api.answer k query ≡ vector []) × (m.no_data ≡ none)
  Caused p (not_one_sample j query) =
      IsQuery p query
      × (xs : List n.Float) × (api.answer p.0 query ≡ vector xs)
      × (length xs ≡ j)
      × (1 < j)
  Caused (k, m, s) malformed_value =
      (query : Text) × IsQuery (k, m, s) query
      × (x : n.Float) × Stands m (api.answer k query) x
      × (n.parse (n.format x) ≡ none)

  abbrev Explained : Pair n api → Polled (Metric n) → Type 0
  Explained (k, m, s) (ok y) = IsPolled k m s y
  Explained p (err e) = Caused p e

  module _ (k : ℕ) (m : PrometheusMetric n.Quantity) (s : Shard) where
    value_lem :
        (query : Text) (x : n.Float) (o : Option n.Quantity)
        → IsQuery (k, m, s) query
        → Stands m (api.answer k query) x
        → n.parse (n.format x) ≡ o
        → Explained
            (k, m, s)
            (or_error malformed_value o >>= λ q. ok (record {
              id = m.id;
              shard = s;
              query = query;
              value = q;
              display_value = n.format x;
            }))
    value_lem query x none h stands e = (query, h, x, stands, e)
    value_lem query x (some q) h stands e = record {
      id = refl;
      shard = refl;
      asked = h;
      number = x;
      answered = stands;
      display = refl;
      read = e;
    }

    read_lem :
        (query : Text) (x : n.Float)
        → IsQuery (k, m, s) query
        → Stands m (api.answer k query) x
        → Explained (k, m, s) (metric_value n api m s query x)
    read_lem query x h stands = value_lem query x (n.parse (n.format x)) h stands refl

    no_data_lem :
        (query : Text) (o : Option n.Quantity)
        → IsQuery (k, m, s) query
        → api.answer k query ≡ vector []
        → m.no_data ≡ o
        → Explained
            (k, m, s)
            ((or_error (had_no_data query) o >>= λ q. ok (n.as_float q)) >>= λ x.
              metric_value n api m s query x)
    no_data_lem query none h e e' = (h, e, e')
    no_data_lem query (some q) h e e' =
        read_lem query (n.as_float q) h
          (subst (λ a. Stands m a (n.as_float q)) (sym e) (q, e', refl))

    answer_lem :
        (query : Text) (a : Answer n.Float)
        → IsQuery (k, m, s) query
        → api.answer k query ≡ a
        → Explained (k, m, s) (sample_value n api m query a >>= λ x. metric_value n api m s query x)
    answer_lem query failure h e = (h, e)
    answer_lem query other h e = (h, e)
    answer_lem query (vector []) h e = no_data_lem query m.no_data h e refl
    answer_lem query (vector (x ∷ [])) h e =
        read_lem query x h (subst (λ a. Stands m a x) (sym e) refl)
    answer_lem query (vector (x ∷ y ∷ xs)) h e = (h, x ∷ y ∷ xs, e, refl, omega arith)

    query_lem :
        (t : api.Template) (o : Option Text)
        → api.parse_template m.id m.query ≡ some t
        → api.execute t s ≡ o
        → Explained
            (k, m, s)
            (or_error template_failed o >>= λ query.
              sample_value n api m query (api.answer k query) >>= λ x.
              metric_value n api m s query x)
    query_lem t none h e = (t, h, e)
    query_lem t (some query) h e = answer_lem query (api.answer k query) (t, h, e) refl

    template_lem :
        (o : Option api.Template)
        → api.parse_template m.id m.query ≡ o
        → Explained
            (k, m, s)
            (or_error malformed_template o >>= λ t.
              or_error template_failed (api.execute t s) >>= λ query.
              sample_value n api m query (api.answer k query) >>= λ x.
              metric_value n api m s query x)
    template_lem none h = h
    template_lem (some t) h = query_lem t (api.execute t s) h refl

    poll_one-Explained : Explained (k, m, s) (poll_one n api k m s)
    unfolding poll_one
    poll_one-Explained = template_lem (api.parse_template m.id m.query) refl

  pub value_of-Explained :
      (p : Pair n api) (o : Polled (Metric n)) → value_of n api p ≡ o → Explained p o
  value_of-Explained (k, m, s) o e = subst (Explained (k, m, s)) e (poll_one-Explained k m s)

  -- A value stands for what was polled for a pair.
  abbrev pub Polls : Pair n api → Metric n → Type 0
  Polls (k, m, s) y = IsPolled k m s y

  Pairwise-Polls :
      (ps : List (Pair n api)) (ys : List (Metric n))
      → Pairwise (Gives n api) ps ys
      → Pairwise Polls ps ys
  Pairwise-Polls [] [] h = tt
  Pairwise-Polls [] (y ∷ ys) h = h
  Pairwise-Polls (p ∷ ps) [] h = h
  Pairwise-Polls (p ∷ ps) (y ∷ ys) h = (value_of-Explained p (ok y) h.0, Pairwise-Polls ps ys h.1)

  -- The first pair of a list that fails, and what its error says of it.
  pub record IsFailing (ps : List (Pair n api)) (e : PollError) : Type 0 where
    pub before : List (Pair n api)
    pub failing : Pair n api
    pub after : List (Pair n api)
    pub split : ps ≡ before ++ failing ∷ after
    pub values : List (Metric n)
    pub earlier : Pairwise Polls before values
    pub cause : Caused failing e

  -- What the outcome of a poll says of its pairs.
  abbrev pub IsOutcome : List (Pair n api) → Polled (List (Metric n)) → Type 0
  IsOutcome ps (ok ys) = Pairwise Polls ps ys
  IsOutcome ps (err e) = IsFailing ps e

  Accounts-IsOutcome :
      (ps : List (Pair n api)) (o : Polled (List (Metric n))) → Accounts n api ps o → IsOutcome ps o
  Accounts-IsOutcome ps (ok ys) h = Pairwise-Polls ps ys h
  Accounts-IsOutcome ps (err e) h = record {
    before = h.before;
    failing = h.failing;
    after = h.after;
    split = h.split;
    values = h.values;
    earlier = Pairwise-Polls h.before h.values h.earlier;
    cause = value_of-Explained h.failing (err e) h.fails;
  }

  -- Where there is a client for the address, a poll goes through the pairs of a metric and a shard,
  -- the metrics outermost. If it returns values, they are one for each pair, in this order, with its
  -- metric and its shard, and each is read from the text of a number: the only sample of the answer
  -- to the query of the pair, or the metric's value for no data where the answer is an empty vector.
  -- If it returns an error, it is that of the first pair that fails, for which the error says what
  -- went wrong, and the pairs before it give values.
  pub poll-IsOutcome :
      (address : Text) (ms : List (PrometheusMetric n.Quantity)) (ss : List Shard)
      → api.connects address ≡ some tt
      → IsOutcome (pairs n api 0 ms ss) (poll n api address ms ss)
  poll-IsOutcome address ms ss h = Accounts-IsOutcome _ _ (poll-Accounts n api address ms ss h)
