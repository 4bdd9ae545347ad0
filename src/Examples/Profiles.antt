-- ===== src/Examples/Profiles.antt =====
-- Updates of the profile of apps/poc/profile.mjs with concrete texts.
use agentmeld.Prelude.{none, some, [], ◌∷◌, ◌≡◌, refl, inl, contains}
use agentmeld.Prelude.Text.{codes, trim, blank}
use agentmeld.Prelude.Fields.{missing, given}
use agentmeld.Store.Check.{refusal}
use agentmeld.Profile.{Profile, ProfileUpdate, ProfileOutside, remembers, update_profile}
use agentmeld.Profile.Revisions.{IsNext, update_profile-IsNext}

-- defaultProfile()
abbrev default_profile : Profile
default_profile = record {
  revision = 0;
  name = codes "AgentMeld";
  identity = [];
  persona = [];
  profile = [];
  memories = [];
  updated_at = none;
}

abbrev outside : ProfileOutside
outside = record { now = 5; memory_id = "m1"; json_length = λ p. 100 }

abbrev note : ProfileUpdate
note = record { revision = given 0; action = remembers (given (codes " likes tea ")) missing }

abbrev noted : Profile
noted = record default_profile {
  revision = 1;
  memories =
      record { id = "m1"; content = codes "likes tea"; source_task_id = none; created_at = 5 } ∷ [];
  updated_at = some 5;
}

-- The same update again is out of date.
note_again :
    update_profile outside (some note) [] noted
    ≡ inl (refusal "The agent changed elsewhere. Reload before saving." 409)
unfolding update_profile
note_again = refl

update_profile-IsNext_example :
    (given 0 ≡ given default_profile.revision) × IsNext default_profile noted
unfolding update_profile contains blank trim
update_profile-IsNext_example = update_profile-IsNext outside note [] default_profile noted refl
