-- ===== src/Fleet/Tokens/Turns.antt =====
-- src/manager.rs: when a refresh token is sent, and how calls at one time share a refresh.
use mathlib.Core.Option
use corrall.Prelude.{
  String, ◌≡◌, refl, sym, ◌∙◌, Bool, true, false, not, Option, none, some, arith, if◌then◌else◌,
  ◌==◌, ap, subst, eq_iff, ◌||◌,
}
use corrall.Prelude.Int.{ℤ, younger}
use corrall.Config.{is_text}
use corrall.Fleet.{Account, Fleet, account, account_mut, is_oauth, account-account_mut}
use corrall.Fleet.Logins.{Files}
use corrall.Fleet.Tokens.{
  OnRefreshFail, refreshed, Tokens, Turn, Ended, note_dead, begin_refresh, begin_account, settle,
  take_tokens, refresh_own, locked_refresh, after_begin, send_held, send_refresh, unsent,
  is_still_needed, wants_refresh, forced_refresh_floor_ms, token_refresh_ahead_ms,
}
use corrall.Fleet.Tokens.Linked.{ensure_token_fresh, link_of, reread_linked}

module _ {F : Type 0} where
  -- What holds when a refresh token is sent: at the start of the call the account is a subscription that
  -- is linked to no file, its token is not known to be dead, and a refresh is wanted; when its turn comes the
  -- account holds the token that is sent, and a refresh is still wanted.
  pub record MaySend (id : String) (force : Bool) (turn : Turn F) (f : Fleet F) (rt : String)
      : Type 0 where
    pub before : Account F
    pub there : account f id ≡ some before
    pub subscription : is_oauth before.kind ≡ true
    pub unlinked : before.import_from ≡ none
    pub first : String
    pub first_held : before.refresh_token ≡ some first
    pub not_dead : is_text first before.dead_refresh_token ≡ false
    pub wanted : wants_refresh force turn.started before ≡ true
    pub after : Account F
    pub still_there : account (turn.others_before f) id ≡ some after
    pub held : after.refresh_token ≡ some rt
    pub still_wanted : wants_refresh force turn.locked after ≡ true
    pub same : (not force || first == rt) ≡ true

  begin_account-some :
      (id rt : String) (force : Bool) (on_fail : OnRefreshFail) (now : ℤ) (f : Fleet F)
      (a : Account F) (o : Option String)
      → (begin_account id force on_fail now f a o).1 ≡ some rt
      → (o ≡ some rt)
        × (is_text rt a.dead_refresh_token ≡ false)
        × (wants_refresh force now a ≡ true)
        × ((begin_account id force on_fail now f a o).0 ≡ f)
  begin_account-some id rt force on_fail now f a none h = absurd (cc h)
  begin_account-some id rt force on_fail now f a (some t) h =
      go (is_text t a.dead_refresh_token) (wants_refresh force now a) refl refl h
    where
      go :
          (d w : Bool)
          → is_text t a.dead_refresh_token ≡ d
          → wants_refresh force now a ≡ w
          → (if◌then◌else◌ {A = Fleet F × Option String} d
              (account_mut id (note_dead on_fail now) f, none)
              (if w then (f, some t) else (f, none))).1
            ≡ some rt
          → (◌≡◌ {A = Option String} (some t) (some rt))
            × (is_text rt a.dead_refresh_token ≡ false)
            × (wants_refresh force now a ≡ true)
            × ((if◌then◌else◌ {A = Fleet F × Option String} d
                  (account_mut id (note_dead on_fail now) f, none)
                  (if w then (f, some t) else (f, none))).0
                ≡ f)
      go true w e e' h = absurd (cc h)
      go false false e e' h = absurd (cc h)
      go false true e e' h =
          let same : t ≡ rt = cc h in
          (h, subst (λ x. is_text x a.dead_refresh_token ≡ false) same e, e', refl)

  record Begins (id : String) (force : Bool) (on_fail : OnRefreshFail) (now : ℤ) (f : Fleet F)
      (rt : String) : Type 0 where
    before : Account F
    there : account f id ≡ some before
    subscription : is_oauth before.kind ≡ true
    held : before.refresh_token ≡ some rt
    not_dead : is_text rt before.dead_refresh_token ≡ false
    wanted : wants_refresh force now before ≡ true
    unchanged : (begin_refresh id force on_fail now f).0 ≡ f

  begin_refresh-Begins :
      (id rt : String) (force : Bool) (on_fail : OnRefreshFail) (now : ℤ) (f : Fleet F)
      → (begin_refresh id force on_fail now f).1 ≡ some rt
      → Begins id force on_fail now f rt
  unfolding begin_refresh
  begin_refresh-Begins id rt force on_fail now f h = look (account f id) refl h
    where
      owned :
          (a : Account F) (oauth : Bool)
          → account f id ≡ some a
          → is_oauth a.kind ≡ oauth
          → (if oauth then begin_account id force on_fail now f a a.refresh_token else (f, none)).1
            ≡ some rt
          → Begins id force on_fail now f rt
      owned a false e e' h = absurd (cc h)
      owned a true e e' h =
          let begun = begin_account-some id rt force on_fail now f a a.refresh_token h in
          record {
            before = a;
            there = e;
            subscription = e';
            held = begun.0;
            not_dead = begun.1;
            wanted = begun.2;
            unchanged = rw (begin_refresh, e, e') begun.3;
          }

      look :
          (o : Option (Account F))
          → account f id ≡ o
          → (elim o as (λ _. Fleet F × Option String) [
            | none ↦ (f, none)
            | some a ↦
                if is_oauth a.kind
                then begin_account id force on_fail now f a a.refresh_token
                else (f, none)
          ]).1
            ≡ some rt
          → Begins id force on_fail now f rt
      look none e h = absurd (cc h)
      look (some a) e h = owned a (is_oauth a.kind) e refl h

  locked_refresh-sent :
      (id first rt : String) (force : Bool) (on_fail : OnRefreshFail) (turn : Turn F) (g : Fleet F)
      → (locked_refresh id force on_fail turn first g).sent ≡ some rt
      → (a : Account F) × ((account g id ≡ some a)
          × (a.refresh_token ≡ some rt)
          × (is_still_needed force first turn.locked a ≡ true))
  unfolding locked_refresh send_refresh
  locked_refresh-sent id first rt force on_fail turn g h = look (account g id) refl h
    where
      holding :
          (a : Account F) (o : Option String)
          → (send_held id on_fail turn a o g).sent ≡ some rt
          → o ≡ some rt
      holding a none h = h
      holding a (some t) h = h

      needed :
          (a : Account F) (t : Bool)
          → account g id ≡ some a
          → is_still_needed force first turn.locked a ≡ t
          → (if t
              then send_held id on_fail turn a a.refresh_token g
              else unsent g a.credential).sent
            ≡ some rt
          → (a : Account F) × ((account g id ≡ some a)
              × (a.refresh_token ≡ some rt)
              × (is_still_needed force first turn.locked a ≡ true))
      needed a false e e' h = absurd (cc h)
      needed a true e e' h = (a, (e, holding a a.refresh_token h, e'))

      look :
          (o : Option (Account F))
          → account g id ≡ o
          → (elim o as (λ _. Ended F) [
            | none ↦ unsent g none
            | some a ↦
                if is_still_needed force first turn.locked a
                then send_held id on_fail turn a a.refresh_token g
                else unsent g a.credential
          ]).sent
            ≡ some rt
          → (a : Account F) × ((account g id ≡ some a)
              × (a.refresh_token ≡ some rt)
              × (is_still_needed force first turn.locked a ≡ true))
      look none e h = absurd (cc h)
      look (some a) e h = needed a (is_still_needed force first turn.locked a) e refl h

  needed-wants :
      (force : Bool) (first rt : String) (now : ℤ) (a : Account F)
      → is_still_needed force first now a ≡ true
      → a.refresh_token ≡ some rt
      → (wants_refresh force now a ≡ true) × ((not force || first == rt) ≡ true)
  unfolding is_still_needed
  needed-wants true first rt now a h held = ground (arith, eq_iff rt first, eq_iff first rt)
  needed-wants false first rt now a h held = (h, refl)

  own_link : (a : Account F) → is_oauth a.kind ≡ true → link_of a ≡ none → a.import_from ≡ none
  own_link a oauth h = ground arith

  refresh_own-MaySend :
      (id rt : String) (force : Bool) (on_fail : OnRefreshFail) (turn : Turn F) (f : Fleet F)
      → Option.bind (account f id) link_of ≡ none
      → (refresh_own id force on_fail turn f).sent ≡ some rt
      → MaySend id force turn f rt
  unfolding refresh_own Option.bind
  refresh_own-MaySend id rt force on_fail turn f unlinked h =
      go (begin_refresh id force on_fail turn.started f) refl h
    where
      sent_on :
          (g : Fleet F) (first : String)
          → g ≡ f
          → Begins id force on_fail turn.started f first
          → (locked_refresh id force on_fail turn first (turn.others_before g)).sent ≡ some rt
          → MaySend id force turn f rt
      sent_on g first same_fleet b h =
          let (after, found) =
            locked_refresh-sent id first rt force on_fail turn (turn.others_before g) h in
          let wants = needed-wants force first rt turn.locked after found.2 found.1 in
          record {
            before = b.before;
            there = b.there;
            subscription = b.subscription;
            unlinked =
                own_link b.before b.subscription (
                  subst (λ (x : Option (Account F)). Option.bind x link_of ≡ none) b.there
                    unlinked);
            first = first;
            first_held = b.held;
            not_dead = b.not_dead;
            wanted = b.wanted;
            after = after;
            still_there =
                subst (λ (x : Fleet F). account (turn.others_before x) id ≡ some after) same_fleet
                  found.0;
            held = found.1;
            still_wanted = wants.0;
            same = wants.1;
          }

      go :
          (r : Fleet F × Option String)
          → begin_refresh id force on_fail turn.started f ≡ r
          → (after_begin id force on_fail turn r).sent ≡ some rt
          → MaySend id force turn f rt
      go (g, none) e h = absurd (cc h)
      go (g, some first) e h =
          let b =
            begin_refresh-Begins id first force on_fail turn.started f
              (ap (λ (x : Fleet F × Option String). x.1) e) in
          sent_on g first (sym (ap (λ (x : Fleet F × Option String). x.0) e) ∙ b.unchanged) b h

  -- A refresh token is sent only for a subscription that, when the call began, was linked to no file
  -- of another program, held a token that was not known to be dead and needed a refresh, and only if
  -- a refresh is still needed when the call has waited for its turn. What is sent is the token that
  -- the account holds then, and after a 401 it is the one with which the call began. That the
  -- account is linked to no file after the wait is not stated.
  pub ensure_token_fresh-MaySend :
      (files : Files) (id rt : String) (force : Bool) (on_fail : OnRefreshFail) (turn : Turn F)
      (f : Fleet F)
      → (ensure_token_fresh files id force on_fail turn f).sent ≡ some rt
      → MaySend id force turn f rt
  unfolding ensure_token_fresh Option.bind
  ensure_token_fresh-MaySend files id rt force on_fail turn f h =
      go (Option.bind (account f id) link_of) refl h
    where
      go :
          (o : Option String)
          → Option.bind (account f id) link_of ≡ o
          → (elim o as (λ _. Ended F) [
            | some path ↦
                let (g, token) =
                  reread_linked files turn.others_before id path force turn.started f in
                unsent g token
            | none ↦ refresh_own id force on_fail turn f
          ]).sent
            ≡ some rt
          → MaySend id force turn f rt
      go none e h = refresh_own-MaySend id rt force on_fail turn f e h
      go (some path) e h = absurd (cc h)

  locked_refresh-unneeded :
      (id first : String) (force : Bool) (on_fail : OnRefreshFail) (turn : Turn F) (g : Fleet F)
      (a : Account F)
      → account g id ≡ some a
      → is_still_needed force first turn.locked a ≡ false
      → locked_refresh id force on_fail turn first g ≡ unsent g a.credential
  unfolding locked_refresh
  locked_refresh-unneeded id first force on_fail turn g a e e' = rw (locked_refresh, e, e') refl

  account-refreshed :
      (id theirs : String) (their_fail : OnRefreshFail) (t : Tokens) (then_at : ℤ) (g : Fleet F)
      (b : Account F)
      → account g id ≡ some b
      → account (settle id their_fail theirs then_at (refreshed t) g) id
        ≡ some (take_tokens t theirs then_at b)
  unfolding settle
  account-refreshed id theirs their_fail t then_at g b there =
      account-account_mut id (take_tokens t theirs then_at) g (λ a. refl)
      ∙ ap (Option.map (take_tokens t theirs then_at)) there

  fresh_unneeded :
      (first theirs : String) (force : Bool) (t : Tokens) (then_at now : ℤ) (b : Account F)
      → younger now then_at forced_refresh_floor_ms ≡ true
      → younger t.expires_at now token_refresh_ahead_ms ≡ false
      → is_still_needed force first now (take_tokens t theirs then_at b) ≡ false
  unfolding is_still_needed
  fresh_unneeded first theirs true t then_at now b recent lasting = ground arith
  fresh_unneeded first theirs false t then_at now b recent lasting = lasting

  after_begin-some :
      (id rt : String) (force : Bool) (on_fail : OnRefreshFail) (turn : Turn F)
      (r : Fleet F × Option String)
      → r.1 ≡ some rt
      → after_begin id force on_fail turn r
        ≡ locked_refresh id force on_fail turn rt (turn.others_before r.0)
  after_begin-some id rt force on_fail turn (g, none) h = absurd (cc h)
  after_begin-some id rt force on_fail turn (g, some first) h =
      let same : first ≡ rt = cc h in
      ap (λ x. locked_refresh id force on_fail turn x (turn.others_before g)) same

  -- Two calls at one time share a refresh: where another call refreshes the account while this one
  -- waits for its turn, less than the floor before, and the new access token is not about to expire,
  -- nothing is sent and the new access token is used.
  pub refresh_own-shared :
      (id rt : String) (force : Bool) (on_fail their_fail : OnRefreshFail) (turn : Turn F)
      (f g : Fleet F) (b : Account F) (theirs : String) (t : Tokens) (then_at : ℤ)
      → (begin_refresh id force on_fail turn.started f).1 ≡ some rt
      → account g id ≡ some b
      → turn.others_before f ≡ settle id their_fail theirs then_at (refreshed t) g
      → younger turn.locked then_at forced_refresh_floor_ms ≡ true
      → younger t.expires_at turn.locked token_refresh_ahead_ms ≡ false
      → refresh_own id force on_fail turn f
        ≡ unsent (settle id their_fail theirs then_at (refreshed t) g) (some t.access_token)
  unfolding refresh_own
  refresh_own-shared id rt force on_fail their_fail turn f g b theirs t then_at begun there met
        recent lasting =
      let b' = begin_refresh-Begins id rt force on_fail turn.started f begun in
      let g' = settle id their_fail theirs then_at (refreshed t) g in
      after_begin-some id rt force on_fail turn (begin_refresh id force on_fail turn.started f)
        begun
      ∙ ap (λ (x : Fleet F). locked_refresh id force on_fail turn rt x)
          (ap turn.others_before b'.unchanged ∙ met)
      ∙ locked_refresh-unneeded id rt force on_fail turn g' (take_tokens t theirs then_at b)
          (account-refreshed id theirs their_fail t then_at g b there)
          (fresh_unneeded rt theirs force t then_at turn.locked b recent lasting)
