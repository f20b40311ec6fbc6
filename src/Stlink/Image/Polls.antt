-- ===== src/Stlink/Image/Polls.antt =====
-- Steps that return in every context, and only read registers.
use libstlink.Prelude.{◌≡◌, ◌∙◌, refl, Bool, true, false, some, ℕ, if◌then◌else◌}
use libstlink.Stlink.Types.{History, Stlink, M, pure, get, ◌>>=◌, bind_run}
use libstlink.Stlink.ReadWrite.{stlink_read_debug32}
use libstlink.Stlink.Image.{ReadsOnly, no_more, one_more, ReadsOnly-trans}

abbrev pub at_history : Stlink → History → Stlink
at_history sl h = record sl { history = h }

-- In the context sl the step returns a value, and a context that differs in reads alone.
abbrev pub PollsAt : {A : Type 0} → M A → Stlink → Type 0
PollsAt {A} m sl =
    (a : A) × (h : History) × (m sl ≡ some (a, at_history sl h)) × ReadsOnly sl.history h

abbrev pub Polls : {A : Type 0} → M A → Type 0
Polls m = (sl : Stlink) → PollsAt m sl

pub pure-Polls : {A : Type 0} (a : A) → Polls (pure a)
pure-Polls a sl = (a, sl.history, refl, no_more)

pub stlink_read_debug32-Polls : (addr : ℕ) → Polls (stlink_read_debug32 addr)
unfolding stlink_read_debug32
stlink_read_debug32-Polls addr sl = (_, _, refl, one_more addr no_more)

pub bind-Polls :
    {A B : Type 0} (m : M A) (f : A → M B) → Polls m → ((a : A) → Polls (f a)) → Polls (m >>= f)
bind-Polls m f pm pf sl =
    let (a, h, ran, reads) = pm sl in
    let (b, h', ran', reads') = pf a (at_history sl h) in
    (b, h', bind_run m ran f ∙ ran', ReadsOnly-trans reads reads')

-- A step that starts from the context itself.
pub get-Polls : {B : Type 0} (f : Stlink → M B) → ((sl : Stlink) → Polls (f sl)) → Polls (get >>= f)
get-Polls f pf sl = pf sl sl

pub if-Polls : {A : Type 0} (b : Bool) (m k : M A) → Polls m → Polls k → Polls (if b then m else k)
if-Polls true m k pm pk = pm
if-Polls false m k pm pk = pk
