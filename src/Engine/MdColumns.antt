-- ===== src/Engine/MdColumns.antt =====
-- functions-audit/master-data/columns.ts: the required columns and their headers.
use ses.Base.{String, List, [], ◌∷◌}

pub record ColumnSpec : Type 0 where
  pub id : String
  pub label : String
  pub aliases : List String

abbrev pub md_project_no_aliases : List String
md_project_no_aliases = "Project No." ∷ "Project No" ∷ "Project Number" ∷ "projectNo" ∷ []

abbrev pub md_project_name_aliases : List String
md_project_name_aliases = "Project" ∷ "Project Name" ∷ "projectName" ∷ "Name" ∷ []

abbrev pub md_email_aliases : List String
md_email_aliases = "Project Manager Email" ∷ "Manager Email" ∷ "email" ∷ "Email" ∷ []

abbrev pub md_state_aliases : List String
md_state_aliases = "Project State" ∷ "projectState" ∷ "State" ∷ []

abbrev pub project_manager : ColumnSpec
project_manager = record {
  id = "project_manager";
  label = "Project Manager";
  aliases = "Project Manager" ∷ "projectManager" ∷ "Manager" ∷ [];
}

abbrev pub project_product : ColumnSpec
project_product = record {
  id = "project_product";
  label = "Project Product";
  aliases = "Project Product" ∷ "projectProduct" ∷ [];
}

abbrev pub md_required_columns : List ColumnSpec
md_required_columns =
    record {
      id = "customer_name";
      label = "Customer name";
      aliases = "Customer name" ∷ "Customer Name" ∷ "customerName" ∷ [];
    }
    ∷ record {
      id = "end_customer_name";
      label = "End Customer Name";
      aliases = "End Customer Name" ∷ "endCustomerName" ∷ [];
    }
    ∷ project_manager
    ∷ record {
      id = "project_country_manager";
      label = "Project Country Manager";
      aliases = "Project Country Manager" ∷ "projectCountryManager" ∷ [];
    }
    ∷ record {
      id = "project_bu_head";
      label = "Project BU Head";
      aliases = "Project BU Head" ∷ "projectBuHead" ∷ [];
    }
    ∷ record {
      id = "account_manager";
      label = "Account Manager";
      aliases = "Account Manager" ∷ "accountManager" ∷ [];
    }
    ∷ record {
      id = "project_industry";
      label = "Project Industry";
      aliases = "Project Industry" ∷ "projectIndustry" ∷ [];
    }
    ∷ record {
      id = "end_customer_industry";
      label = "End Customer Industry";
      aliases = "End Customer Industry" ∷ "endCustomerIndustry" ∷ [];
    }
    ∷ record { id = "use_case"; label = "Use Case"; aliases = "Use Case" ∷ "useCase" ∷ [] }
    ∷ project_product
    ∷ []
