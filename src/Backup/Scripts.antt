-- ===== src/Backup/Scripts.antt =====
-- The scripts of the backup and restore jobs: `generateBackupScript` and `generateRestoreScript` of
-- controllers/backup_restore.go.
use pishop_operator.Base.{String, List, ◌∷◌, [], concat}

abbrev backup_head : String
backup_head = concat (
    "#!/bin/bash\n" ∷ "set -e\n" ∷ "\n" ∷ "echo \"Starting MongoDB backup for PR ${PR_NUMBER}\"\n"
    ∷ "echo \"Backup name: ${BACKUP_NAME}\"\n" ∷ "\n" ∷ "# Create backup directory\n"
    ∷ "BACKUP_DIR=\"/backup/${BACKUP_NAME}\"\n" ∷ "mkdir -p \"${BACKUP_DIR}\"\n" ∷ "\n"
    ∷ "# Function to backup a single database\n" ∷ "backup_database() {\n"
    ∷ "    local db_name=$1\n" ∷ "    echo \"Backing up database: ${db_name}\"\n" ∷ "\n"
    ∷ "    mongodump \\\n" ∷ "        --uri=\"${MONGO_URI}\" \\\n"
    ∷ "        --username=\"${MONGO_USERNAME}\" \\\n"
    ∷ "        --password=\"${MONGO_PASSWORD}\" \\\n" ∷ "        --db=\"${db_name}\" \\\n"
    ∷ "        --out=\"${BACKUP_DIR}\" \\\n" ∷ "        --gzip\n" ∷ "\n"
    ∷ "    if [ $? -eq 0 ]; then\n"
    ∷ "        echo \"Successfully backed up database: ${db_name}\"\n" ∷ "    else\n"
    ∷ "        echo \"Failed to backup database: ${db_name}\"\n" ∷ "        exit 1\n" ∷ "    fi\n"
    ∷ "}\n" ∷ "\n" ∷ "# Backup all databases\n" ∷ [])

abbrev backup_metadata : String
backup_metadata = concat (
    "\n" ∷ "# Create backup metadata\n" ∷ "cat > \"${BACKUP_DIR}/metadata.json\" << EOF\n" ∷ "{\n"
    ∷ "    \"backup_name\": \"${BACKUP_NAME}\",\n" ∷ "    \"pr_number\": \"${PR_NUMBER}\",\n"
    ∷ "    \"timestamp\": \"$(date -u +%Y-%m-%dT%H:%M:%SZ)\",\n" ∷ "    \"databases\": [\n" ∷ [])

abbrev backup_tail : String
backup_tail = concat (
    "\n" ∷ "    ]\n" ∷ "}\n" ∷ "EOF\n" ∷ "\n" ∷ "# Create backup archive\n" ∷ "cd /backup\n"
    ∷ "tar -czf \"${BACKUP_NAME}.tar.gz\" \"${BACKUP_NAME}\"\n" ∷ "rm -rf \"${BACKUP_NAME}\"\n"
    ∷ "\n" ∷ "echo \"Backup completed successfully: ${BACKUP_NAME}.tar.gz\"\n"
    ∷ "echo \"Backup size: $(du -h ${BACKUP_NAME}.tar.gz | cut -f1)\"\n" ∷ [])

abbrev restore_head : String
restore_head = concat (
    "#!/bin/bash\n" ∷ "set -e\n" ∷ "\n" ∷ "echo \"Starting MongoDB restore for PR ${PR_NUMBER}\"\n"
    ∷ "echo \"Backup name: ${BACKUP_NAME}\"\n" ∷ "\n" ∷ "# Extract backup archive\n"
    ∷ "BACKUP_DIR=\"/backup/${BACKUP_NAME}\"\n" ∷ "cd /backup\n" ∷ "\n"
    ∷ "if [ ! -f \"${BACKUP_NAME}.tar.gz\" ]; then\n"
    ∷ "    echo \"Backup file not found: ${BACKUP_NAME}.tar.gz\"\n" ∷ "    exit 1\n" ∷ "fi\n" ∷ "\n"
    ∷ "echo \"Extracting backup archive...\"\n" ∷ "tar -xzf \"${BACKUP_NAME}.tar.gz\"\n" ∷ "\n"
    ∷ "if [ ! -d \"${BACKUP_DIR}\" ]; then\n"
    ∷ "    echo \"Backup directory not found after extraction: ${BACKUP_DIR}\"\n" ∷ "    exit 1\n"
    ∷ "fi\n" ∷ "\n" ∷ "# Function to restore a single database\n" ∷ "restore_database() {\n"
    ∷ "    local db_name=$1\n" ∷ "    echo \"Restoring database: ${db_name}\"\n" ∷ "\n"
    ∷ "    # Drop existing database first\n"
    ∷ "    echo \"Dropping existing database: ${db_name}\"\n"
    ∷ "    mongo \"${MONGO_URI}\" --username=\"${MONGO_USERNAME}\" --password=\"${MONGO_PASSWORD}\" --eval \"db.getSiblingDB('${db_name}').dropDatabase()\"\n"
    ∷ "\n" ∷ "    # Restore database\n" ∷ "    mongorestore \\\n"
    ∷ "        --uri=\"${MONGO_URI}\" \\\n" ∷ "        --username=\"${MONGO_USERNAME}\" \\\n"
    ∷ "        --password=\"${MONGO_PASSWORD}\" \\\n" ∷ "        --db=\"${db_name}\" \\\n"
    ∷ "        --gzip \\\n" ∷ "        \"${BACKUP_DIR}/${db_name}\"\n" ∷ "\n"
    ∷ "    if [ $? -eq 0 ]; then\n"
    ∷ "        echo \"Successfully restored database: ${db_name}\"\n" ∷ "    else\n"
    ∷ "        echo \"Failed to restore database: ${db_name}\"\n" ∷ "        exit 1\n" ∷ "    fi\n"
    ∷ "}\n" ∷ "\n" ∷ "# Restore all databases\n" ∷ [])

abbrev restore_tail : String
restore_tail = concat (
    "\n" ∷ "# Clean up extracted files\n" ∷ "rm -rf \"${BACKUP_DIR}\"\n" ∷ "\n"
    ∷ "echo \"Restore completed successfully\"\n" ∷ [])

-- One command for each database, in order.
unfoldable pub commands : String → List String → String
commands command [] = ""
commands command (d ∷ ds) = concat (command ∷ " \"" ∷ d ∷ "\"\n" ∷ commands command ds ∷ [])

-- The names in quotes, with a comma in front of each but the first.
following_names : List String → String
following_names [] = ""
following_names (d ∷ ds) = concat (",        \"" ∷ d ∷ "\"" ∷ following_names ds ∷ [])

unfoldable pub quoted_names : List String → String
unfolding following_names
quoted_names [] = ""
quoted_names (d ∷ ds) = concat ("        \"" ∷ d ∷ "\"" ∷ following_names ds ∷ [])

unfoldable pub generate_backup_script : List String → String
generate_backup_script databases = concat (
    backup_head
    ∷ commands "backup_database" databases
    ∷ backup_metadata
    ∷ quoted_names databases
    ∷ backup_tail
    ∷ [])

unfoldable pub generate_restore_script : List String → String
generate_restore_script databases =
    concat (restore_head ∷ commands "restore_database" databases ∷ restore_tail ∷ [])
