-- ===== src/Commands/NotFound/Registered.antt =====
-- command.go: handlers that are registered one at a time.
use joe_cli.Common.{
  Bool, List, Option, [], ap, arith, false, if◌then◌else◌, maybe, none, not, refl, some, sym, true,
  ◌&&◌, ◌||◌, ◌∙◌, ◌∷◌, ◌≡◌,
}
use joe_cli.Commands.NotFound.{
  Handler, Route, RouteError, Stored, compose_handlers, is_empty_list, is_some, lookup_handler,
  register, sentinel, stored,
}

or_true : (x : Bool) → (x || true) ≡ true
or_true true = refl
or_true false = refl

module _ {W : Type 0} where
  -- The handlers of the list, registered over `d` from the end of the list to its beginning.
  unfoldable pub register_all : Option (Stored W) → List (Handler W) → Option (Stored W)
  register_all d [] = d
  register_all d (h ∷ hs) = register (some h) (register_all d hs)

  abbrev pub all_some : List (Handler W) → List (Option (Handler W))
  all_some [] = []
  all_some (h ∷ hs) = some h ∷ all_some hs

  alone :
      (h : Handler W) (err : Option RouteError) (c : Route W)
      → compose_handlers (some h ∷ []) err c ≡ h err c
  unfolding compose_handlers
  alone h err c =
      let res = h err c in rw (or_true (is_some res.command && not (is_some res.err))) refl

  -- a handler that does what another does can stand for it as the second
  second :
      (h f : Handler W) (hs : List (Option (Handler W))) (err : Option RouteError) (c : Route W)
      → ((e : Option RouteError) (s : Route W) → f e s ≡ compose_handlers hs e s)
      → is_empty_list hs ≡ false
      → compose_handlers (some h ∷ some f ∷ []) err c ≡ compose_handlers (some h ∷ hs) err c
  unfolding compose_handlers
  second h f [] err c same filled = absurd (ground arith)
  second h f (g ∷ hs) err c same filled =
      let res = h err c in
      ap (λ r. if (is_some res.command && not (is_some res.err)) || false then res else r)
        (alone f res.err res.route ∙ same res.err res.route)

  -- what is stored behind the first registration
  record Stands (d : Option (Stored W)) (hs : List (Option (Handler W))) : Type 0 where
    handler : Handler W
    is_stored : d ≡ some (stored handler)
    does : (err : Option RouteError) (c : Route W) → handler err c ≡ compose_handlers hs err c

  first_Stands :
      (d : Option (Stored W)) (h : Handler W)
      → lookup_handler (d ∷ []) ≡ none
      → Stands (register (some h) d) (some h ∷ [])
  unfolding register lookup_handler
  first_Stands none h none_yet = record {
    handler = h;
    is_stored = refl;
    does = λ err c. sym (alone h err c);
  }
  first_Stands (some sentinel) h none_yet = record {
    handler = h;
    is_stored = refl;
    does = λ err c. sym (alone h err c);
  }
  first_Stands (some (stored f)) h none_yet = absurd (ground arith)

  all_Stand :
      (d : Option (Stored W)) (h : Handler W) (hs : List (Handler W))
      → lookup_handler (d ∷ []) ≡ none
      → Stands (register_all d (h ∷ hs)) (all_some (h ∷ hs))
  unfolding register register_all
  all_Stand d h [] none_yet = first_Stands d h none_yet
  all_Stand d h (g ∷ hs) none_yet =
      let rest = all_Stand d g hs none_yet in
      record {
        handler = compose_handlers (some h ∷ some rest.handler ∷ []);
        is_stored = ap (register (some h)) rest.is_stored;
        does = λ err c. second h rest.handler (all_some (g ∷ hs)) err c rest.does refl;
      }

  -- Handlers that are registered one at a time, over no handler or the sentinel, are found as
  -- one that does what ComposeCommandNotFoundHandler of all of them does, the last registered
  -- first.
  pub lookup_handler-register :
      (d : Option (Stored W)) (h : Handler W) (hs : List (Handler W))
      (lineage : List (Option (Stored W))) (err : Option RouteError) (c : Route W)
      → lookup_handler (d ∷ []) ≡ none
      → maybe (lookup_handler (register_all d (h ∷ hs) ∷ lineage)) none (λ f. some (f err c))
        ≡ some (compose_handlers (all_some (h ∷ hs)) err c)
  unfolding lookup_handler
  lookup_handler-register d h hs lineage err c none_yet =
      let stands = all_Stand d h hs none_yet in rw stands.is_stored (ap some (stands.does err c))
