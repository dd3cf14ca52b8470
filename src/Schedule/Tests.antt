-- ===== src/Schedule/Tests.antt =====
-- The presets, and each theorem at a concrete input.

use relay_local.Prelude.{◌+◌, ◌≡◌, refl, true, false, some, All}
use relay_local.Js.{bool, IsPlain, found}
use relay_local.Samples.Codec.{codec, codec-IsJson}
use relay_local.Schedule.{nights_and_weekends, always_on, load_schedule, save, toggle, hours_of}
use relay_local.Schedule.Shape.{IsWeek, load_schedule-IsWeek, always_on-IsWeek}
use relay_local.Schedule.Hours.{cell, toggle-changes}
use relay_local.Schedule.Reload.{load_schedule-save}

all_hours : hours_of always_on ≡ 168
unfolding hours_of always_on
all_hours = refl

default_hours : hours_of nights_and_weekends ≡ 113
unfolding hours_of nights_and_weekends
default_hours = refl

load_schedule-IsWeek_example : IsWeek (load_schedule codec (found "[[t][f]]"))
load_schedule-IsWeek_example = load_schedule-IsWeek codec (found "[[t][f]]")

toggle-changes_example :
    (cell (toggle 1 9 nights_and_weekends) 1 9 ≡ some (bool true))
    × (hours_of (toggle 1 9 nights_and_weekends) + 0 ≡ hours_of nights_and_weekends + 1)
unfolding nights_and_weekends
toggle-changes_example = toggle-changes 1 9 nights_and_weekends {v = bool false} 1 9 refl

always_on-All : All (All IsPlain) always_on
unfolding always_on IsPlain
always_on-All = search

load_schedule-save_example : load_schedule codec (save codec always_on) ≡ always_on
load_schedule-save_example =
    load_schedule-save codec codec-IsJson always_on always_on-IsWeek always_on-All
