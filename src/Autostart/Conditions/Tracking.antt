-- ===== src/Autostart/Conditions/Tracking.antt =====
-- What is remembered of a condition, as file monitors and settings report changes one by one, is what
-- a new look at the condition says (mate-session/gsm-autostart-app.c).
use mathlib.Core.Path.{subst}
use mate_session_manager.Base.{
  ℕ, ◌≡◌, inl, inr, refl, ap, ◌∙◌, sym, Bool, true, false, not, Option, none, some, List, [], ◌∷◌,
  String, arith, Option-cases,
}
use mate_session_manager.Autostart.{
  ConditionKind, if_exists, unless_exists, mate, gsettings, unknown, Surroundings, Autostart,
  DesktopFile, is_disabled, new,
}
use mate_session_manager.Autostart.Parse.{parse_condition_string}
use mate_session_manager.Autostart.Conditions.{
  take_condition, if_exists_condition_cb, unless_exists_condition_cb, gsettings_condition_cb,
  setting_off, parsed_disabled, is_conditionally_disabled, conditionally_disabled_by, observe,
  heard, file_event, take_condition, observe_all,
}
use mate_session_manager.Autostart.Conditions.Reading.{
  SettingsFit, Monitor, Settings, Fits, Listens, parsed_disabled_total, loaded, loaded-string,
  loaded-Listens,
}

take_condition-condition : (b : Bool) (a : Autostart) → (take_condition b a).condition ≡ b
unfolding take_condition
take_condition-condition b a = ground arith

-- What listens, and the text of the condition, are as they were.
abbrev Keeps : Autostart → Autostart → Type 0
Keeps a c =
    (c.condition_monitor ≡ a.condition_monitor)
    × (c.condition_settings ≡ a.condition_settings)
    × (c.condition_string ≡ a.condition_string)

take_condition-Keeps : (b : Bool) (a : Autostart) → Keeps a (take_condition b a)
unfolding take_condition
take_condition-Keeps b a = (ground arith, ground arith, ground arith)

file_heard-Keeps :
    (exists : Bool) (a : Autostart)
    → Keeps a (if_exists_condition_cb (file_event exists) a)
      × Keeps a (unless_exists_condition_cb (file_event exists) a)
unfolding if_exists_condition_cb unless_exists_condition_cb
file_heard-Keeps true a = (take_condition-Keeps true a, take_condition-Keeps false a)
file_heard-Keeps false a = (take_condition-Keeps false a, take_condition-Keeps true a)

heard-Keeps :
    (out : Surroundings) (m : Monitor) (s : Settings) (a : Autostart) → Keeps a (heard out m s a)
unfolding heard gsettings_condition_cb
heard-Keeps out (some (if_exists, file)) s a = (file_heard-Keeps (out.file_exists file) a).0
heard-Keeps out (some (unless_exists, file)) s a = (file_heard-Keeps (out.file_exists file) a).1
heard-Keeps out (some (mate, file)) s a = (refl, refl, refl)
heard-Keeps out (some (gsettings, file)) s a = (refl, refl, refl)
heard-Keeps out (some (unknown, file)) s a = (refl, refl, refl)
heard-Keeps out none (some (schema, key)) a = take_condition-Keeps (out.setting schema key) a
heard-Keeps out none none a = (refl, refl, refl)

-- The condition that is remembered is what a new look at it says.
abbrev Agrees : Surroundings → ConditionKind × Option (List ℕ) → Settings → Bool → Type 0
Agrees out p s condition = parsed_disabled out s p ≡ some (not condition)

file_heard :
    (exists : Bool) (a : Autostart)
    → ((if_exists_condition_cb (file_event exists) a).condition ≡ exists)
      × ((unless_exists_condition_cb (file_event exists) a).condition ≡ not exists)
unfolding if_exists_condition_cb unless_exists_condition_cb
file_heard true a = (take_condition-condition true a, take_condition-condition false a)
file_heard false a = (take_condition-condition false a, take_condition-condition true a)

settings_heard :
    (before out : Surroundings) (key : List ℕ) (s : Settings) (a : Autostart)
    → SettingsFit key s
    → setting_off before key s ≡ some (not a.condition)
    → setting_off out key s ≡ some (not (heard out none s a).condition)
unfolding heard gsettings_condition_cb setting_off
settings_heard before out key none a f h = h
settings_heard before out text (some (schema, key)) a f h =
    ground (arith, take_condition-condition (out.setting schema key) a)

not-not : (b : Bool) → not (not b) ≡ b
not-not true = refl
not-not false = refl

nothing_heard :
    (out : Surroundings) (m : Monitor) (s : Settings) (a : Autostart)
    → m ≡ none
    → s ≡ none
    → heard out m s a ≡ a
unfolding heard
nothing_heard out m s a e f = rw (e, f)

heard-Agrees :
    (before out : Surroundings) (kind : ConditionKind) (key : List ℕ) (m : Monitor) (s : Settings)
    (a : Autostart)
    → Fits (kind, some key) m s
    → Agrees before (kind, some key) s a.condition
    → Agrees out (kind, some key) s (heard out m s a).condition
unfolding heard parsed_disabled
heard-Agrees before out if_exists key m s a f h = rw (f, (file_heard (out.file_exists key) a).0)
heard-Agrees before out unless_exists key m s a f h =
    rw (f, (file_heard (out.file_exists key) a).1, not-not (out.file_exists key))
heard-Agrees before out mate key m s a (e, f) h =
    subst (λ (x : Monitor). setting_off out key s ≡ some (not (heard out x s a).condition)) (sym e)
      (settings_heard before out key s a f h)
heard-Agrees before out gsettings key m s a (e, f) h =
    subst (λ (x : Monitor). setting_off out key s ≡ some (not (heard out x s a).condition)) (sym e)
      (settings_heard before out key s a f h)
heard-Agrees before out unknown key m s a (e, f) h =
    h ∙ ap (λ (b : Autostart). some (not b.condition)) (sym (nothing_heard out m s a e f))

-- The surroundings at the end.
abbrev pub last_of : Surroundings → List Surroundings → Surroundings
last_of out [] = out
last_of out (o ∷ r) = last_of o r

observe_all-Agrees :
    (outs : List Surroundings) (out : Surroundings) (kind : ConditionKind) (key : List ℕ)
    (a : Autostart)
    → Fits (kind, some key) a.condition_monitor a.condition_settings
    → Agrees out (kind, some key) a.condition_settings a.condition
    → let b = observe_all outs a in
      Agrees (last_of out outs) (kind, some key) b.condition_settings b.condition
unfolding observe_all observe
observe_all-Agrees [] out kind key a f h = h
observe_all-Agrees (o ∷ r) out kind key a f h =
    let (m, s, _) = heard-Keeps o a.condition_monitor a.condition_settings a in
    let b = heard o a.condition_monitor a.condition_settings a in
    observe_all-Agrees r o kind key b
      (subst (λ (x : Monitor). Fits (kind, some key) x b.condition_settings) (sym m)
        (subst (λ (y : Settings). Fits (kind, some key) a.condition_monitor y) (sym s) f))
      (subst (λ (y : Settings). Agrees o (kind, some key) y b.condition) (sym s)
        (heard-Agrees out o kind key a.condition_monitor a.condition_settings a f h))

observe_all-string :
    (outs : List Surroundings) (a : Autostart)
    → (observe_all outs a).condition_string ≡ a.condition_string
unfolding observe_all observe
observe_all-string [] a = refl
observe_all-string (o ∷ r) a =
    let (_, _, t) = heard-Keeps o a.condition_monitor a.condition_settings a in
    observe_all-string r (heard o a.condition_monitor a.condition_settings a) ∙ t

-- A look at a condition that has a key.
look_lem :
    (out : Surroundings) (o : Option (List ℕ)) (text : List ℕ) (kind : ConditionKind) (key : List ℕ)
    → (a : Autostart) (d : Bool) → o ≡ some text
    → parse_condition_string text ≡ (kind, some key)
    → parsed_disabled out a.condition_settings (kind, some key) ≡ some d
    → conditionally_disabled_by out o a ≡ some (record a { condition = not d }, d)
unfolding conditionally_disabled_by
look_lem out o text kind key a d e p q = rw (e, p, q)

-- From a condition that was remembered in this way.
agreeing_is_kept :
    (out : Surroundings) (outs : List Surroundings) (text : List ℕ) (kind : ConditionKind)
    (key : List ℕ)
    → (a : Autostart) → a.condition_string ≡ some text
    → parse_condition_string text ≡ (kind, some key)
    → Fits (kind, some key) a.condition_monitor a.condition_settings
    → Agrees out (kind, some key) a.condition_settings a.condition
    → let c = observe_all outs a in
      conditionally_disabled_by (last_of out outs) c.condition_string c ≡ some (c, not c.condition)
agreeing_is_kept out outs text kind key a e p f q =
    let c = observe_all outs a in
    look_lem (last_of out outs) c.condition_string text kind key c (not c.condition)
      (observe_all-string outs a ∙ e) p (observe_all-Agrees outs out kind key a f q)
    ∙ ap (λ (x : Bool). some (record c { condition = x }, not c.condition)) (not-not c.condition)

app_of : Autostart → Option (Autostart × Bool) → Autostart
app_of a none = a
app_of a (some (b, _)) = b

-- From any application that something fitting listens for.
watched_is_kept :
    (out : Surroundings) (outs : List Surroundings) (text : List ℕ) (kind : ConditionKind)
    (key : List ℕ)
    → (a b : Autostart) (disabled : Bool) → a.condition_string ≡ some text
    → parse_condition_string text ≡ (kind, some key)
    → Fits (kind, some key) a.condition_monitor a.condition_settings
    → conditionally_disabled_by out a.condition_string a ≡ some (b, disabled)
    → let c = observe_all outs b in
      conditionally_disabled_by (last_of out outs) c.condition_string c ≡ some (c, not c.condition)
unfolding app_of
watched_is_kept out outs text kind key a b disabled e p f h =
    elim (Option-cases (parsed_disabled out a.condition_settings (kind, some key))) [
      | inl q ↦
          elim (parsed_disabled_total out (kind, some key) a.condition_monitor a.condition_settings
            (inl f) q) [ ]
      | inr (d, q) ↦
          subst
            (λ (x : Autostart).
              conditionally_disabled_by (last_of out outs) (observe_all outs x).condition_string
                (observe_all outs x)
              ≡ some (observe_all outs x, not (observe_all outs x).condition))
            (ap (app_of b) (sym (look_lem out a.condition_string text kind key a d e p q) ∙ h))
            (agreeing_is_kept out outs text kind key (record a { condition = not d }) e p f
              (q ∙ ap some (sym (not-not d))))
    ]

loaded-Fits :
    (before : Surroundings) (fresh : String) (f : DesktopFile) (text : List ℕ)
    (kind : ConditionKind) (key : List ℕ)
    → f.condition ≡ some text
    → parse_condition_string text ≡ (kind, some key)
    → is_disabled (new (some f)) ≡ false
    → let a = loaded before fresh f in
      Fits (kind, some key) a.condition_monitor a.condition_settings
loaded-Fits before fresh f text kind key e p w =
    let a = loaded before fresh f in
    subst (λ (x : ConditionKind × Option (List ℕ)). Fits x a.condition_monitor a.condition_settings)
      p
      (subst (λ (d : Bool). Listens (some text) d a.condition_monitor a.condition_settings) w
        (subst
          (λ (o : Option (List ℕ)).
            Listens o (is_disabled (new (some f))) a.condition_monitor a.condition_settings)
          e (loaded-Listens before fresh f)))

-- Take an application that was loaded, in any surroundings, from a desktop file that is not disabled
-- and whose condition has a key. Once its condition was looked at, whatever the surroundings were
-- then, and after any changes of them, each of which is heard, the condition that is remembered is
-- that which a new look in the last surroundings gives.
pub condition_is_kept :
    (before out : Surroundings) (outs : List Surroundings) (fresh : String) (f : DesktopFile)
    → (text : List ℕ) (kind : ConditionKind) (key : List ℕ) (a : Autostart) (disabled : Bool)
    → f.condition ≡ some text
    → parse_condition_string text ≡ (kind, some key)
    → is_disabled (new (some f)) ≡ false
    → is_conditionally_disabled out (loaded before fresh f) ≡ some (a, disabled)
    → let b = observe_all outs a in
      is_conditionally_disabled (last_of out outs) b ≡ some (b, not b.condition)
unfolding is_conditionally_disabled conditionally_disabled_by
condition_is_kept before out outs fresh f text kind key a disabled e p w h =
    watched_is_kept out outs text kind key (loaded before fresh f) a disabled
      (loaded-string before fresh f ∙ e) p (loaded-Fits before fresh f text kind key e p w) h
